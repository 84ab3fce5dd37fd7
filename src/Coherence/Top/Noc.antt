-- ===== src/Coherence/Top/Noc.antt =====
-- Two GETS behind a network on chip: the list is of cores, and the assertion looks up a child's number.
use bzsim.Base.{
  ℕ, ◌+◌, ◌^◌, ◌≡◌, ◌<◌, refl, sym, ap, ◌∙◌, Bool, true, false, not, ◌&&◌, ◌==◌, ltb, Outcome, ok,
  stop, ◌>>◌, >>=-eq-ok, check-ok, ok_inj, if◌then◌else◌, lt→ltb, ltb→lt, Bool-cases, inl, inr,
  update-same, arith,
}
use bzsim.Base.Fault.{assertion, undefined}
use bzsim.Coherence.{Flags, invx}
use bzsim.Coherence.Top.{
  TopConfig, Dir, Entry, is_empty, is_exclusive, in_bitset, settle, send_to_sharers,
  send_invalidates, get_line, get_shared, send_each,
}

>>-eq-ok :
    {B : Type 0} {b : B} (m : Outcome (Unit {0})) (next : Outcome B)
    → (m >> next) ≡ ok b
    → next ≡ ok b
>>-eq-ok (stop fault) next e = cc
>>-eq-ok (ok value) next e = e

in_bitset-ok :
    {B : Type 0} {b : B} (c : ℕ) (next : Outcome B)
    → (in_bitset c >> next) ≡ ok b
    → (c < 256) × (next ≡ ok b)
in_bitset-ok {B} {b} c next e = go (ltb c 256) refl e
  where
    go :
        (x : Bool)
        → ltb c 256 ≡ x
        → ((if x then ok tt else stop undefined) >> next) ≡ ok b
        → (c < 256) × (next ≡ ok b)
    go true l h = (ltb→lt c 256 l, h)
    go false l h = cc

settle-count : (e e' : Entry) → settle invx e ≡ ok e' → e'.num_sharers ≡ 1
unfolding settle
settle-count e e' h =
    let (_, f) = check-ok e.is_excl _ h in
    let (one, g) = check-ok (e.num_sharers == 1) _ f in
    let same = ap (λ (x : Entry). x.num_sharers) (ok_inj g) in ground (arith, same, one)

module _ {C : Type 0} (t : TopConfig C) where
  -- A downgrade leaves one sharer.
  downgrade-count :
      (cycle src_id : ℕ) (d d' : Dir C) (w : Bool) (resp : ℕ)
      → is_exclusive d.entry ≡ true
      → send_invalidates t invx cycle src_id true d ≡ ok (d', w, resp)
      → d'.entry.num_sharers ≡ 1
  unfolding send_invalidates send_to_sharers
  downgrade-count cycle src_id d d' w resp excl h =
      let some : is_empty d.entry ≡ false = ground arith in
      let h' : send_to_sharers t invx cycle src_id true d ≡ ok (d', w, resp) =
        rw (excl, some) at h in
      let (s, _, f) =
        >>=-eq-ok
          (send_each t t.num_grand_children invx cycle src_id true
            (record { dir = d; writeback = false; max_cycle = cycle; sent_invs = 0 }))
          _ h' in
      let (_, g) = check-ok (s.sent_invs == s.dir.entry.num_sharers) _ (>>-eq-ok _ _ f) in
      let (e, settled, left) = >>=-eq-ok (settle invx s.dir.entry) _ g in
      let same = ap (λ (x : Dir C × Bool × ℕ). x.0.entry.num_sharers) (ok_inj left) in
      sym same ∙ settle-count s.dir.entry e settled

  -- The line lists the core.
  record Listed (core : ℕ) (d : Dir C) : Type 0 where
    within : core < 256
    shares : d.entry.sharers core ≡ true
    counted : 0 < d.entry.num_sharers

  downgraded-room :
      (cycle src_id : ℕ) (d d' : Dir C) (w : Bool) (resp : ℕ)
      → d.entry.num_sharers + 1 < 2 ^ 32
      → (if is_exclusive d.entry
          then send_invalidates t invx cycle src_id true d
          else ok (d, false, cycle))
        ≡ ok (d', w, resp)
      → d'.entry.num_sharers + 1 < 2 ^ 32
  downgraded-room cycle src_id d d' w resp few h = elim (Bool-cases (is_exclusive d.entry)) [
    | inl e ↦
        let one = downgrade-count cycle src_id d d' w resp e (rw (e) at h) in omega (arith, one)
    | inr e ↦
        let same = ap (λ (x : Dir C × Bool × ℕ). x.0.entry.num_sharers) (ok_inj (rw (e) at h)) in
        omega (arith, same, few)
  ]

  -- What a GETS leaves that is not given exclusive permission.
  get_shared-Listed :
      (d d' : Dir C) (core cell cycle : ℕ) (w : Bool) (resp : ℕ)
      → d.entry.num_sharers + 1 < 2 ^ 32
      → get_shared t core cell cycle core true d ≡ ok (d', w, resp)
      → Listed core d'
  unfolding get_shared
  get_shared-Listed d d' core cell cycle w resp few h =
      let (within, f) = in_bitset-ok core _ h in
      let (_, g) = check-ok (not (d.entry.sharers core)) _ f in
      let ((m, w', resp'), run, rest) =
        >>=-eq-ok
          (if is_exclusive d.entry
            then send_invalidates t invx cycle core true d
            else ok (d, false, cycle))
          _ g in
      let (_, k) = check-ok (not (is_exclusive m.entry)) _ rest in
      let (_, left) = in_bitset-ok core _ k in
      let listed = ap (λ (x : Dir C × Bool × ℕ). x.0.entry.sharers core) (ok_inj left) in
      let counted = ap (λ (x : Dir C × Bool × ℕ). x.0.entry.num_sharers) (ok_inj left) in
      let room : m.entry.num_sharers + 1 < 2 ^ 32 =
        downgraded-room cycle core d m w' resp' few run in
      record {
        within = within;
        shares = sym listed ∙ update-same m.entry.sharers core true;
        counted = omega (arith, counted, room);
      }

  -- What any GETS leaves.
  get_line-Listed :
      (d d' : Dir C) (core cell cycle : ℕ) (have_exclusive : Bool) (flags : Flags) (w : Bool)
      (resp : ℕ)
      → d.entry.num_sharers + 1 < 2 ^ 32
      → get_line t core cell have_exclusive cycle core flags true d ≡ ok (d', w, resp)
      → Listed core d'
  unfolding get_line
  get_line-Listed d d' core cell cycle have_exclusive flags w resp few h =
      elim (Bool-cases (is_empty d.entry && have_exclusive && not flags.no_excl)) [
        | inl e ↦
            let (within, left) = in_bitset-ok core _ (rw (e) at h) in
            let listed = ap (λ (x : Dir C × Bool × ℕ). x.0.entry.sharers core) (ok_inj left) in
            let counted = ap (λ (x : Dir C × Bool × ℕ). x.0.entry.num_sharers) (ok_inj left) in
            record {
              within = within;
              shares = sym listed ∙ update-same d.entry.sharers core true;
              counted = omega (arith, counted);
            }
        | inr e ↦ get_shared-Listed d d' core cell cycle w resp few (rw (e) at h)
      ]

  -- Behind a network on chip, on a line with fewer than 2 ^ 32 - 1 sharers: once a GETS of the core
  -- whose number is the request's child number has succeeded, the next GETS with this child number,
  -- of any core, fails the assertion that the child does not share the line.
  pub get_line-assertion :
      (d d' : Dir C) (core cell cycle : ℕ) (have_exclusive : Bool) (flags : Flags) (w : Bool)
      (resp : ℕ)
      → d.entry.num_sharers + 1 < 2 ^ 32
      → get_line t core cell have_exclusive cycle core flags true d ≡ ok (d', w, resp)
      → (cell' src_id late : ℕ) (have_exclusive' : Bool) (flags' : Flags)
      → get_line t core cell' have_exclusive' late src_id flags' true d' ≡ stop assertion
  unfolding get_line get_shared
  get_line-assertion d d' core cell cycle have_exclusive flags w resp few h =
      let l = get_line-Listed d d' core cell cycle have_exclusive flags w resp few h in
      let some : is_empty d'.entry ≡ false = ground (arith, l.counted) in
      λ cell' src_id late have_exclusive' flags'. rw (some, lt→ltb core 256 l.within, l.shares) refl
