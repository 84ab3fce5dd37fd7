-- ===== src/Coherence/Tests.antt =====
-- Runs of the coherence controllers: three terminal caches under one cache, over a memory.
use bzsim.Base.{
  ℕ, ◌^◌, ◌<◌, ◌==◌, ◌≡◌, refl, ap, subst, Bool, true, false, Bool-cases, inl, inr, Outcome, ok,
  stop, if◌then◌else◌, update, arith, total,
}
use bzsim.Base.Fault.{assertion}
use bzsim.Coherence.{
  MesiState, invalid, shared, exclusive, modified, AccessType, gets, getx, putx, invx, MemReq,
  no_flags, is_invalid, has_exclusive,
}
use bzsim.Coherence.Bottom
use bzsim.Coherence.Bottom.{Parents, BottomConfig}
use bzsim.Coherence.Bottom.Grants.{IsParent, access-IsParent}
use bzsim.Coherence.Memory
use bzsim.Coherence.Top
use bzsim.Coherence.Terminal
use bzsim.Coherence.Top.{TopConfig, Dir, Entry}
use bzsim.Coherence.Top.Directory.{IsDirectory, dirty_below}
use bzsim.Coherence.Top.Noc.{get_line-assertion}
use bzsim.Coherence.Controller
use bzsim.Coherence.Controller.{Line, check_for_mesi_race}
use bzsim.Coherence.Tower
use bzsim.Coherence.Tower.{cache_child}
use bzsim.Coherence.Top.Children.{IsChild}
use bzsim.Coherence.Leaf.{leaves, leaf_child}
use bzsim.Coherence.Node.{Includes, dirty_line, finish_invalidate-Follows}
use bzsim.Coherence.Access.{ask, brings, IsLeft, process_access-ok}
use bzsim.Coherence.Eviction.{process_eviction-ok}
use bzsim.Coherence.Race.{Overtaken, still, later, Resolved, check_for_mesi_race-Resolved}

abbrev memory : Parents
memory = λ p. Memory.access 100

memory-IsParent : IsParent memory
memory-IsParent = access-IsParent 100 (omega arith) (omega arith)

abbrev bottom : BottomConfig
bottom = record {
  parents_size = 1;
  parent_rtts = λ p. 0;
  self_id = 0;
  is_llc = true;
  non_inclusive_hack = false;
}

abbrev caches : TopConfig MesiState
caches = leaves 3 (λ c. 4) 2

-- Cache 1 has modified the line.
abbrev line : Line MesiState
line = record {
  own = exclusive;
  dir = record {
    entry = record { num_sharers = 1; sharers = λ i. i == 1; is_excl = true };
    kids = λ i. if i == 1 then modified else invalid;
  };
}

line-IsDirectory : IsDirectory caches false (leaf_child 3 (λ c. 4) 2) line.dir
unfolding total
line-IsDirectory = record {
  fits = omega arith;
  okay = λ i p. tt;
  listed = λ i p. elim (Bool-cases (i == 1)) [ inl e ↦ rw (e) refl | inr e ↦ rw (e) refl ];
  counted = refl;
  single = λ x. omega arith;
  excl = λ i p. elim (Bool-cases (i == 1)) [ inl e ↦ rw (e) refl | inr e ↦ rw (e) refl ];
}

line-Includes : Includes memory bottom caches (leaf_child 3 (λ c. 4) 2) line.own line.dir
line-Includes = λ i p. elim (Bool-cases (i == 1)) [ inl e ↦ rw (e) refl | inr e ↦ rw (e) tt ]

abbrev request : AccessType → MemReq
request type = record {
  line_addr = 64;
  type = type;
  child_id = 0;
  cycle = 10;
  initial_state = invalid;
  src_id = 0;
  flags = no_flags;
  noc_req = false;
  noc_child_id = 0;
}

-- Cache 0 writes to the line: the modified data of cache 1 comes up first.
process_access-ok_example :
    (l : Line MesiState) × (resp : ℕ) × (Controller.process_access memory bottom caches true
        (ask (request getx) getx false 0)
        0
        line
        10
      ≡ ok (l, resp))
    × IsDirectory caches false (leaf_child 3 (λ c. 4) 2) l.dir
    × Includes memory bottom caches (leaf_child 3 (λ c. 4) 2) l.own l.dir
    × IsLeft getx false (l.dir.kids 0)
    × (brings getx (dirty_below caches false (leaf_child 3 (λ c. 4) 2) line.dir) ≡ true
        → l.own ≡ modified)
process_access-ok_example =
    process_access-ok memory bottom caches (leaf_child 3 (λ c. 4) 2) memory-IsParent (omega arith)
      getx false (request getx) 0 line 10 line-IsDirectory line-Includes (omega arith) refl
      (omega arith)

finish_invalidate-Follows_example :
    (l : Line MesiState) × (resp : ℕ) × (Controller.finish_invalidate memory bottom caches 3 invx 10
        0 line
      ≡ ok (l, dirty_line memory bottom caches (leaf_child 3 (λ c. 4) 2) line, resp))
    × IsDirectory caches false (leaf_child 3 (λ c. 4) 2) l.dir
    × Includes memory bottom caches (leaf_child 3 (λ c. 4) 2) l.own l.dir
    × ((is_invalid l.own ≡ false) × (has_exclusive l.own ≡ false))
    × (dirty_line memory bottom caches (leaf_child 3 (λ c. 4) 2) l ≡ false)
finish_invalidate-Follows_example =
    finish_invalidate-Follows memory bottom caches (leaf_child 3 (λ c. 4) 2) invx 3 10 0 line
      line-IsDirectory line-Includes refl

-- The cycle of an eviction's last answer, 0 where it has failed.
abbrev last_cycle : Outcome (Dir MesiState × Bool × ℕ) → ℕ
last_cycle (ok (d, w, late)) = late
last_cycle (stop fault) = 0

evicted_early : last_cycle (Top.process_eviction caches 10 0 false line.dir) < 2 ^ 63
unfolding Top.process_eviction Top.send_invalidates Top.send_to_sharers Top.send_each Top.send_one
    Top.call_child Terminal.finish_invalidate Terminal.process_inv Bottom.process_inval Top.settle
evicted_early = omega arith

process_eviction-ok_example :
    (l : Line MesiState) × (late : ℕ) × (resp : ℕ) × (Controller.process_eviction memory bottom
        caches
        (request gets)
        64
        line
        10
      ≡ ok (l, resp))
    × IsDirectory caches false (leaf_child 3 (λ c. 4) 2) l.dir
    × (l.own ≡ invalid)
    × ((i : ℕ) → i < 3 → l.dir.kids i ≡ invalid)
    × (dirty_line memory bottom caches (leaf_child 3 (λ c. 4) 2) line ≡ true
        → Bottom.write_back memory bottom putx 64 modified late 0 ≡ ok (invalid, resp))
process_eviction-ok_example =
    process_eviction-ok memory bottom caches (leaf_child 3 (λ c. 4) 2) memory-IsParent (omega arith)
      refl (request gets) 64 line 10 line-IsDirectory line-Includes
      (λ d w late e. subst (λ x. x < 2 ^ 63) (ap last_cycle e) evicted_early)

-- A cache over such caches, and one over those.
abbrev upper : TopConfig (Line MesiState)
upper = Tower.caches memory bottom caches 2 (λ c. 6) 5

abbrev upper_child : IsChild upper false
upper_child = cache_child memory bottom caches (leaf_child 3 (λ c. 4) 2) 2 (λ c. 6) 5

abbrev uppermost_child : IsChild (Tower.caches memory bottom upper 4 (λ c. 9) 7) false
uppermost_child = cache_child memory bottom upper upper_child 4 (λ c. 9) 7

-- A cache was about to write the line back, and was downgraded.
downgraded : Overtaken modified shared
unfolding Bottom.process_inval
downgraded = later invx true refl still

check_for_mesi_race-Resolved_example :
    (answer : Bool × AccessType) × (check_for_mesi_race putx shared modified ≡ ok answer)
    × Resolved putx shared answer
check_for_mesi_race-Resolved_example =
    check_for_mesi_race-Resolved putx modified shared refl downgraded

-- Core 0 reads a line that nobody has; core 2 reads it then.
abbrev unshared : Dir MesiState
unshared = record { entry = Top.clear; kids = λ i. invalid }

abbrev owned_by_0 : Dir MesiState
owned_by_0 = record {
  entry = record { num_sharers = 1; sharers = update (λ _. false) 0 true; is_excl = true };
  kids = update (λ i. invalid) 0 exclusive;
}

first_read : Top.get_line caches 0 0 true 10 0 no_flags true unshared ≡ ok (owned_by_0, false, 10)
unfolding Top.get_line
first_read = refl

get_line-assertion_example :
    Top.get_line caches 0 2 true 20 2 no_flags true owned_by_0 ≡ stop assertion
get_line-assertion_example =
    get_line-assertion caches unshared owned_by_0 0 0 10 true no_flags false 10 (omega arith)
      first_read 2 2 20 true no_flags
