-- ===== src/Coherence/Node.antt =====
-- `Cache::finishInvalidate` of zsim/src/cache.cpp on a line of a cache with children.
use bzsim.Base.{
  ℕ, ◌<◌, ◌≡◌, refl, sym, ap, ◌∙◌, Bool, true, false, not, ◌&&◌, ◌||◌, Bool-cases, and-false, inl,
  inr, ok, total-zero, arith, bit,
}
use bzsim.Coherence.Permission.{
  exclusive-valid, modified-exclusive, Rises-invalid, Rises-shared, has_exclusive-Rises,
}
use bzsim.Coherence.{
  MesiState, invalid, shared, InvType, inv, invx, fwd, is_invalid, has_exclusive, is_modified,
  add64,
}
use bzsim.Coherence.Bottom
use bzsim.Coherence.Bottom.{Parents, BottomConfig}
use bzsim.Coherence.Top
use bzsim.Coherence.Top.{TopConfig, Dir}
use bzsim.Coherence.Top.Children.{IsChild, CanFollow, Follows, Rises}
use bzsim.Coherence.Top.Sweep.{unowned-dirty}
use bzsim.Coherence.Top.Directory.{
  IsDirectory, Cleared, dirty_below, send_inv-Cleared, send_invx-Lowered, IsDirectory-IsAsked,
  any-false,
}
use bzsim.Coherence.Controller
use bzsim.Coherence.Controller.{Line}

module _ {C : Type 0} (up : Parents) (b : BottomConfig) (t : TopConfig C)
    (ch : IsChild t false) where
  -- No child has more permission than the line itself.
  abbrev pub Includes : MesiState → Dir C → Type 0
  Includes own d = (i : ℕ) → i < t.children_size → Rises (t.state (d.kids i)) own

  -- Modified data is in the line or below it.
  abbrev pub dirty_line : Line C → Bool
  dirty_line l = dirty_below t false ch l.dir || is_modified l.own

  pub Cleared-IsDirectory :
      (cycle : ℕ) (d d' : Dir C) (resp : ℕ)
      → IsDirectory t false ch d
      → Cleared t false ch t.children_size cycle d d' resp
      → IsDirectory t false ch d'
  Cleared-IsDirectory cycle d d' resp g q =
      let gone : (i : ℕ) → i < t.children_size → t.state (d'.kids i) ≡ invalid =
        λ i p. q.gone i p (λ e. absurd (omega arith)) in
      record {
        fits = g.fits;
        okay = q.okay;
        listed = λ i p. q.off i p ∙ ap (λ y. not (is_invalid y)) (sym (gone i p));
        counted =
            q.empty
            ∙ sym (
                total-zero t.children_size (λ i. bit (d'.entry.sharers i))
                  (λ i p. ap bit (q.off i p)));
        single = λ x. let e = q.empty in omega arith;
        excl = λ i p.
            ap has_exclusive (gone i p)
            ∙ sym (ap (λ y. d'.entry.is_excl && y) (q.off i p) ∙ and-false d'.entry.is_excl);
      }

  -- What is modified is in exclusive hands all the way up.
  pub dirty_line-exclusive :
      (l : Line C)
      → IsDirectory t false ch l.dir
      → Includes l.own l.dir
      → dirty_line l ≡ true
      → has_exclusive l.own ≡ true
  dirty_line-exclusive l g i e = elim (Bool-cases (has_exclusive l.own)) [
    | inl p ↦ p
    | inr p ↦
        let a =
          any-false t.children_size (λ k. ch.dirty (l.dir.kids k))
            (λ k q.
              unowned-dirty t false ch (l.dir.kids k) (g.okay k q)
                (has_exclusive-Rises (t.state (l.dir.kids k)) l.own (i k q) p)) in
        let m = modified-exclusive l.own p in
        absurd (dry (dirty_below t false ch l.dir) (is_modified l.own) a m e)
  ]
    where
      dry : (x y : Bool) → x ≡ false → y ≡ false → (x || y) ≡ true → ⊥
      dry x y h k e = ground arith

  -- An invalidation from above succeeds on a line that can follow it, brings up what was modified
  -- there or below, and keeps the line's directory and inclusion.
  pub finish_invalidate-Follows :
      (type : InvType) (inv_lat cycle src_id : ℕ) (l : Line C)
      → IsDirectory t false ch l.dir
      → Includes l.own l.dir
      → CanFollow type l.own
      → (l' : Line C) × (resp : ℕ) × (Controller.finish_invalidate up b t inv_lat type cycle src_id
            l
          ≡ ok (l', dirty_line l, resp))
        × IsDirectory t false ch l'.dir
        × Includes l'.own l'.dir
        × Follows type l.own l'.own
        × (dirty_line l' ≡ false)
  unfolding Controller.finish_invalidate Controller.process_inv Top.process_inval
      Bottom.process_inval
  finish_invalidate-Follows inv inv_lat cycle src_id l g i can =
      let (d', resp, sent, q) =
        send_inv-Cleared t false ch t.children_size (add64 cycle inv_lat) src_id l.dir
          (IsDirectory-IsAsked t false ch t.children_size l.dir g) in
      (
        record { own = invalid; dir = d' },
        resp,
        rw (can, sent) refl,
        Cleared-IsDirectory (add64 cycle inv_lat) l.dir d' resp g q,
        λ k p.
            Rises-invalid (t.state (d'.kids k)) invalid
              (ap is_invalid (q.gone k p (λ e. absurd (omega arith)))),
        refl,
        rw (any-false t.children_size (λ k. ch.dirty (d'.kids k)) q.clean) refl,
      )
  finish_invalidate-Follows invx inv_lat cycle src_id l g i can =
      let (d', resp, sent, q) = send_invx-Lowered t false ch (add64 cycle inv_lat) src_id l.dir g in
      (
        record { own = shared; dir = d' },
        resp,
        rw (exclusive-valid l.own can, sent, can) refl,
        q.directory,
        λ k p. Rises-shared (t.state (d'.kids k)) (q.lowered k p),
        (sym (exclusive-valid l.own can), refl),
        rw (any-false t.children_size (λ k. ch.dirty (d'.kids k)) q.clean) refl,
      )
  finish_invalidate-Follows fwd inv_lat cycle src_id l g i can = cc
