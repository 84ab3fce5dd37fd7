-- ===== src/Coherence/Access.antt =====
-- The accesses of a cache with children: `MESICC::processAccess` as a whole.
use bzsim.Base.{
  ℕ, ◌^◌, ◌<◌, ◌≡◌, refl, sym, ap, subst, Bool, true, false, ◌&&◌, Bool-cases, inl, inr, ok, split,
}
use bzsim.Coherence.Permission.{
  exclusive-valid, modified_exclusive, Rises-self, Rises-invalid, Rises-modified, Rises-valid,
  Rises-owner, Rises-has_exclusive, below-valid, Rises-trans,
}
use bzsim.Coherence.{
  MesiState, exclusive, modified, AccessType, gets, getx, puts, putx, MemReq, is_invalid,
  has_exclusive, is_modified, is_put,
}
use bzsim.Coherence.Bottom
use bzsim.Coherence.Bottom.{Parents, BottomConfig}
use bzsim.Coherence.Bottom.Grants.{
  IsParent, CanAsk, IsGiven, CanServe, Serves, process_access-Serves,
}
use bzsim.Coherence.Top
use bzsim.Coherence.Top.{TopConfig, Dir, is_exclusive}
use bzsim.Coherence.Top.Children.{IsChild, Rises}
use bzsim.Coherence.Top.Directory.{IsDirectory, dirty_below}
use bzsim.Coherence.Top.Serve.{get_exclusive-IsDirectory}
use bzsim.Coherence.Top.Gets.{get_line-IsDirectory}
use bzsim.Coherence.Top.Puts.{put-IsDirectory, keep_exclusive-IsDirectory, listed_alone}
use bzsim.Coherence.Controller
use bzsim.Coherence.Controller.{Line, take_writeback, tell_child, access_line}
use bzsim.Coherence.Node.{Includes, dirty_line-exclusive}

-- A request of child `c` that does not come through a network on chip and is no prefetch.
abbrev pub ask : MemReq → AccessType → Bool → ℕ → MemReq
ask req type keep c = record req {
  type = type;
  child_id = c;
  noc_req = false;
  flags = record req.flags { prefetch = false; putx_keep_excl = keep };
}

-- A child that writes back has no copies below, unless it keeps the line, which it has modified.
abbrev pub MayAsk :
    {C : Type 0} {t : TopConfig C} → IsChild t false → AccessType → Bool → C → Type 0
MayAsk {t = t} ch puts keep kid = (is_invalid (t.state kid) ≡ false) × ch.Idle kid
MayAsk {t = t} ch putx false kid = (has_exclusive (t.state kid) ≡ true) × ch.Idle kid
MayAsk {t = t} ch putx true kid = is_modified (t.state kid) ≡ true
MayAsk {t = t} ch type keep kid = CanAsk type (t.state kid)

-- Modified data comes up: from the children that had it, or from the child that writes it back.
abbrev pub brings : AccessType → Bool → Bool
brings puts below = false
brings putx below = true
brings type below = below

abbrev pub IsLeft : AccessType → Bool → MesiState → Type 0
IsLeft putx true state = state ≡ exclusive
IsLeft type keep state = IsGiven type state

served_again : (type : AccessType) (old new : MesiState) → Serves type old new → Serves type new new
served_again gets old new h = (h.0, λ x. refl)
served_again getx old new h = h
served_again puts old new h = refl
served_again putx old new h = h

Serves-Rises : (type : AccessType) (old new : MesiState) → Serves type old new → Rises old new
Serves-Rises gets old new h = elim (Bool-cases (is_invalid old)) [
  | inl e ↦ Rises-invalid old new e
  | inr e ↦ subst (Rises old) (sym (h.1 e)) (Rises-self old)
]
Serves-Rises getx old new h = subst (Rises old) (sym h) (Rises-modified old)
Serves-Rises puts old new h = subst (Rises old) (sym h) (Rises-self old)
Serves-Rises putx old new h = subst (Rises old) (sym h) (Rises-modified old)

module _ {C : Type 0} (up : Parents) (b : BottomConfig) (t : TopConfig C)
    (ch : IsChild t false) where
  take_writeback-Rises :
      (w : Bool) (own : MesiState)
      → (w ≡ true → has_exclusive own ≡ true)
      → (own' : MesiState) × (take_writeback up b t w own ≡ ok own')
        × Rises own own'
        × (w ≡ true → own' ≡ modified)
  unfolding take_writeback Bottom.process_writeback_on_access
  take_writeback-Rises true own h = (modified, rw (h refl) refl, Rises-modified own, λ x. refl)
  take_writeback-Rises false own h = (own, refl, Rises-self own, λ x. cc)

  -- The directory's part of an access, after which `own` has the permission that is asked for.
  tell_child-ok :
      (type : AccessType) (keep : Bool) (req : MemReq) (c : ℕ) (l : Line C) (cycle : ℕ)
      → IsDirectory t false ch l.dir
      → Includes up b t ch l.own l.dir
      → c < t.children_size
      → MayAsk ch type keep (l.dir.kids c)
      → Serves type l.own l.own
      → (l' : Line C) × (resp : ℕ) × (tell_child up b t
            (ask req type keep c)
            c
            (ask req type keep c).flags
            l
            cycle
          ≡ ok (l', resp))
        × IsDirectory t false ch l'.dir
        × Includes up b t ch l'.own l'.dir
        × IsLeft type keep (t.state (l'.dir.kids c))
        × Rises l.own l'.own
        × (brings type (dirty_below t false ch l.dir) ≡ true → l'.own ≡ modified)
  unfolding tell_child Top.process_access take_writeback Top.put_dirty
  tell_child-ok gets keep req c l cycle g i h may own =
      let (d', resp, run, good, given, rest, late) =
        get_line-IsDirectory t ch l.dir c cycle req.src_id (has_exclusive l.own)
          (ask req gets keep c).flags g h may in
      let (own', wrote, rise, dirty) =
        take_writeback-Rises (dirty_below t false ch l.dir) l.own
          (λ x. dirty_line-exclusive up b t ch l g i (rw (x) refl)) in
      (
        record { own = own'; dir = d' },
        resp,
        rw (run, wrote) refl,
        good,
        split c
            (λ k p q.
              Rises-valid (t.state (d'.kids k)) own' (rest k p q)
                (below-valid l.own own' rise own.0))
            (elim given [
              | inl e ↦
                  Rises-valid (t.state (d'.kids c)) own' (ap has_exclusive e)
                    (below-valid l.own own' rise own.0)
              | inr e ↦
                  Rises-owner (t.state (d'.kids c)) own' (Rises-has_exclusive l.own own' rise e.1)
            ]),
        elim given [ inl e ↦ inl e | inr e ↦ inr e.0 ],
        rise,
        dirty,
      )
  tell_child-ok getx keep req c l cycle g i h may own =
      let (d', resp, run, good, given, rest, late) =
        get_exclusive-IsDirectory t ch l.dir c cycle req.src_id g h may in
      let (own', wrote, rise, dirty) =
        take_writeback-Rises (dirty_below t false ch l.dir) modified (λ x. refl) in
      let all : (k : ℕ) → Rises (t.state (d'.kids k)) own' =
        λ k. Rises-owner (t.state (d'.kids k)) own' (Rises-has_exclusive modified own' rise refl) in
      (
        record { own = own'; dir = d' },
        resp,
        rw (own, run, wrote) refl,
        good,
        λ k p. all k,
        given,
        subst (λ x. Rises x own') (sym own) rise,
        dirty,
      )
  tell_child-ok puts keep req c l cycle g i h may own =
      let (d', run, good, given, rest) =
        put-IsDirectory t ch l.dir c req.noc_child_id g h may.0 may.1 in
      (
        record { own = l.own; dir = d' },
        cycle,
        rw (run) refl,
        good,
        split c (λ k p q. subst (λ x. Rises (t.state x) l.own) (sym (rest k q)) (i k p))
            (Rises-invalid (t.state (d'.kids c)) l.own (ap is_invalid given)),
        given,
        Rises-self l.own,
        λ x. cc,
      )
  tell_child-ok putx false req c l cycle g i h may own =
      let alone = listed_alone t ch l.dir c g h may.0 in
      let (d', run, good, given, rest) =
        put-IsDirectory t ch l.dir c req.noc_child_id g h
          (exclusive-valid (t.state (l.dir.kids c)) may.0) may.1 in
      (
        record { own = l.own; dir = d' },
        cycle,
        rw (alone.0, run) refl,
        good,
        split c (λ k p q. subst (λ x. Rises (t.state x) l.own) (sym (rest k q)) (i k p))
            (Rises-invalid (t.state (d'.kids c)) l.own (ap is_invalid given)),
        given,
        Rises-self l.own,
        λ x. own,
      )
  tell_child-ok putx true req c l cycle g i h may own =
      let (d', run, good, given, rest) =
        keep_exclusive-IsDirectory t ch l.dir c req.noc_child_id (ask req putx true c).flags g h may
          refl in
      (
        record { own = l.own; dir = d' },
        cycle,
        rw (run) refl,
        good,
        split c (λ k p q. subst (λ x. Rises (t.state x) l.own) (sym (rest k q)) (i k p))
            (Rises-owner (t.state (d'.kids c)) l.own (ap has_exclusive own)),
        given,
        Rises-self l.own,
        λ x. own,
      )

  -- What a child may ask for can be served: the line has at least the child's permission.
  can_serve :
      (type : AccessType) (keep : Bool) (own : MesiState) (kid : C)
      → Rises (t.state kid) own
      → MayAsk ch type keep kid
      → CanServe type own × ((is_put type && is_invalid own) ≡ false)
  can_serve gets keep own kid r m = (tt, refl)
  can_serve getx keep own kid r m = (tt, refl)
  can_serve puts keep own kid r m =
      (below-valid (t.state kid) own r m.0, below-valid (t.state kid) own r m.0)
  can_serve putx false own kid r m =
      let x = Rises-has_exclusive (t.state kid) own r m.0 in (x, exclusive-valid own x)
  can_serve putx true own kid r m =
      let x = Rises-has_exclusive (t.state kid) own r (modified_exclusive (t.state kid) m) in
      (x, exclusive-valid own x)

  -- An access of a child that may ask, to a line that is in the array, by a request that is no prefetch
  -- and does not come through a network on chip, in the first half of time, succeeds, where the
  -- directory is right, the line includes the children's, and a parent serves what may be asked. It
  -- keeps the directory and the inclusion, gives the child what it asks for, and the line has recorded
  -- what modified data has come up.
  pub process_access-ok :
      IsParent up
      → 0 < b.parents_size
      → (type : AccessType) (keep : Bool) (req : MemReq) (c : ℕ) (l : Line C) (cycle : ℕ)
      → IsDirectory t false ch l.dir
      → Includes up b t ch l.own l.dir
      → c < t.children_size
      → MayAsk ch type keep (l.dir.kids c)
      → cycle < 2 ^ 63
      → (l' : Line C) × (resp : ℕ) × (Controller.process_access up b t true
            (ask req type keep c)
            c
            l
            cycle
          ≡ ok (l', resp))
        × IsDirectory t false ch l'.dir
        × Includes up b t ch l'.own l'.dir
        × IsLeft type keep (t.state (l'.dir.kids c))
        × (brings type (dirty_below t false ch l.dir) ≡ true → l'.own ≡ modified)
  unfolding Controller.process_access access_line
  process_access-ok parent some type keep req c l cycle g i h may early =
      let (can, usual) = can_serve type keep l.own (l.dir.kids c) (i c h) may in
      let (own, late, run, served, on) =
        process_access-Serves up b parent some type req.line_addr l.own cycle req.src_id
          (ask req type keep c).flags false can early in
      let (l', resp, told, good, wide, given, rise, dirty) =
        tell_child-ok type keep req c (record l { own = own }) late g
          (λ k p.
            Rises-trans (t.state (l.dir.kids k)) l.own own (i k p)
              (Serves-Rises type l.own own served))
          h may (served_again type l.own own served) in
      (l', resp, rw (usual, run, told) refl, good, wide, given, dirty)
