-- ===== src/Coherence/Eviction.antt =====
-- The eviction of a line from a cache with children: `MESICC::processEviction` as a whole.
use bzsim.Base.{
  ℕ, ◌^◌, ◌<◌, ◌≡◌, refl, sym, ◌∙◌, subst, if◌then◌else◌, Bool, true, false, ok, arith,
}
use bzsim.Coherence.{invalid, modified, putx, inv, MemReq}
use bzsim.Coherence.Bottom.{Parents, BottomConfig, write_back}
use bzsim.Coherence.Bottom.Grants.{IsParent, process_eviction-invalid}
use bzsim.Coherence.Top
use bzsim.Coherence.Top.{TopConfig, Dir}
use bzsim.Coherence.Top.Children.{IsChild}
use bzsim.Coherence.Top.Directory.{IsDirectory, dirty_below, send_inv-Cleared, IsDirectory-IsAsked}
use bzsim.Coherence.Controller
use bzsim.Coherence.Controller.{Line}
use bzsim.Coherence.Node.{Includes, dirty_line, dirty_line-exclusive, Cleared-IsDirectory}

module _ {C : Type 0} (up : Parents) (b : BottomConfig) (t : TopConfig C)
    (ch : IsChild t false) where
  evicted :
      (cycle src_id : ℕ) (d : Dir C)
      → t.non_inclusive_hack ≡ false
      → Top.process_eviction t cycle src_id false d
        ≡ Top.send_invalidates t inv cycle src_id false d
  unfolding Top.process_eviction
  evicted cycle src_id d h =
      subst
        (λ x.
          (if x
            then ok (record d { entry = Top.clear }, false, cycle)
            else Top.send_invalidates t inv cycle src_id false d)
          ≡ Top.send_invalidates t inv cycle src_id false d)
        (sym h) refl

  -- An eviction from an inclusive cache, for a request that does not come through a network on chip:
  -- it succeeds, where the directory is right, the line includes the children's, a parent serves what
  -- may be asked, and the children answer in the first half of time. No copy of the line is left, here
  -- or below, and modified data of the line or of a child has gone to the parent by a PUTX.
  pub process_eviction-ok :
      IsParent up
      → 0 < b.parents_size
      → t.non_inclusive_hack ≡ false
      → (req : MemReq) (wb_line_addr : ℕ) (l : Line C) (cycle : ℕ) → IsDirectory t false ch l.dir
      → Includes up b t ch l.own l.dir
      → ((d : Dir C) (w : Bool) (late : ℕ)
          → Top.process_eviction t cycle req.src_id false l.dir ≡ ok (d, w, late)
          → late < 2 ^ 63)
      → (l' : Line C) × (late : ℕ) × (resp : ℕ) × (Controller.process_eviction up b t
            (record req { noc_req = false })
            wb_line_addr
            l
            cycle
          ≡ ok (l', resp))
        × IsDirectory t false ch l'.dir
        × (l'.own ≡ invalid)
        × ((i : ℕ) → i < t.children_size → t.state (l'.dir.kids i) ≡ invalid)
        × (dirty_line up b t ch l ≡ true
            → write_back up b putx wb_line_addr modified late req.src_id ≡ ok (invalid, resp))
  unfolding Controller.process_eviction
  process_eviction-ok parent some inclusive req a l cycle g i early =
      let (d', late, sent, q) =
        send_inv-Cleared t false ch t.children_size cycle req.src_id l.dir
          (IsDirectory-IsAsked t false ch t.children_size l.dir g) in
      let cleared : Top.process_eviction t cycle req.src_id false l.dir
          ≡ ok (d', dirty_below t false ch l.dir, late) =
        evicted cycle req.src_id l.dir inclusive ∙ sent in
      let (resp, run, up_by) =
        process_eviction-invalid up b parent some a l.own (dirty_below t false ch l.dir) late
          req.src_id (λ x. dirty_line-exclusive up b t ch l g i (rw (x) refl))
          (early d' (dirty_below t false ch l.dir) late cleared) in
      (
        record { own = invalid; dir = d' },
        late,
        resp,
        rw (cleared, run) refl,
        Cleared-IsDirectory up b t ch cycle l.dir d' late g q,
        refl,
        λ k p. q.gone k p (λ e. absurd (omega arith)),
        up_by,
      )
