-- ===== src/Coherence/Top/Puts.antt =====
-- A child that writes a line back: the list gives it up, or keeps it exclusive.
use bzsim.Base.{
  ℕ, ◌+◌, ◌-◌, ◌%◌, ◌^◌, ◌≤◌, ◌<◌, ◌≡◌, ◌≢◌, refl, sym, ap, ◌∙◌, subst, true, false, not, ◌&&◌,
  and-false, both, ok, count, arith, bit, update, update-same, update-other, fun_ext, le-total,
  update-id,
}
use bzsim.Coherence.Permission.{modified_exclusive, Rises-exclusive}
use bzsim.Coherence.{invalid, exclusive, Flags, is_invalid, has_exclusive, is_modified}
use bzsim.Coherence.Top.{TopConfig, Dir, Entry, is_exclusive, set_child, put, put_dirty}
use bzsim.Coherence.Top.Children.{IsChild}
use bzsim.Coherence.Top.Directory.{IsDirectory}
use bzsim.Coherence.Top.Serve.{change, in_range, count-update, count_le, less_one}

one-exclusive : (e : Entry) → e.num_sharers ≡ 1 → e.is_excl ≡ true → is_exclusive e ≡ true
one-exclusive e n h = ground arith

module _ {C : Type 0} (t : TopConfig C) (ch : IsChild t false) where
  -- PUTS, and PUTX of a child that gives the line up.
  pub put-IsDirectory :
      (d : Dir C) (c other : ℕ)
      → IsDirectory t false ch d
      → c < t.children_size
      → is_invalid (t.state (d.kids c)) ≡ false
      → ch.Idle (d.kids c)
      → (d' : Dir C) × (put t c c false other d ≡ ok d')
        × IsDirectory t false ch d'
        × (t.state (d'.kids c) ≡ invalid)
        × ((i : ℕ) → i ≢ c → d'.kids i ≡ d.kids i)
  unfolding put
  put-IsDirectory d c other g h x idle =
      let listed : d.entry.sharers c ≡ true = g.listed c h ∙ ap not x in
      let st = t.set_state invalid (d.kids c) in
      let num = count-update t.children_size d.entry.sharers c false h in
      let some : d.entry.num_sharers ≡ count t.children_size (update d.entry.sharers c false) + 1 =
        omega (arith, g.counted, num, ap bit listed) in
      let few : d.entry.num_sharers ≤ 256 =
        omega (arith, g.counted, count_le t.children_size d.entry.sharers, g.fits) in
      let less =
        less_one d.entry.num_sharers (count t.children_size (update d.entry.sharers c false)) few
          some in
      (
        record {
          entry = record {
            num_sharers = (d.entry.num_sharers + 2 ^ 32 - 1) % 2 ^ 32;
            sharers = update d.entry.sharers c false;
            is_excl = d.entry.is_excl;
          };
          kids = update d.kids c st;
        },
        rw (in_range t ch d c g h, listed) refl,
        change t false ch d c ((d.entry.num_sharers + 2 ^ 32 - 1) % 2 ^ 32) d.entry.is_excl false
            invalid h g.fits (λ i p r. g.okay i p) (ch.give_up (d.kids c) (g.okay c h) idle)
            (λ i p r. g.listed i p) refl (omega (arith, less, some, g.counted, ap bit listed))
            (λ y. omega (arith, less, some, g.single y)) (λ i p r. g.excl i p)
            (sym (and-false d.entry.is_excl)),
        ap t.state (update-same d.kids c st) ∙ ch.state_set invalid (d.kids c),
        λ i r. update-other d.kids c st i (λ y. r (sym y)),
      )

  -- A child with exclusive permission is the one that the entry lists.
  pub listed_alone :
      (d : Dir C) (c : ℕ)
      → IsDirectory t false ch d
      → c < t.children_size
      → has_exclusive (t.state (d.kids c)) ≡ true
      → (is_exclusive d.entry ≡ true) × (d.entry.is_excl ≡ true) × (d.entry.sharers c ≡ true)
  listed_alone d c g h x =
      let (excl, listed) = both d.entry.is_excl (d.entry.sharers c) (sym (g.excl c h) ∙ x) in
      let few = g.single excl in
      (
        one-exclusive d.entry
            (omega (
              arith,
              g.counted,
              few,
              le-total t.children_size (λ i. bit (d.entry.sharers i)) c h,
              ap bit listed,
            ))
            excl,
        excl,
        listed,
      )

  -- A PUTX that keeps the line: it is exclusive and clean.
  pub keep_exclusive-IsDirectory :
      (d : Dir C) (c other : ℕ) (flags : Flags)
      → IsDirectory t false ch d
      → c < t.children_size
      → is_modified (t.state (d.kids c)) ≡ true
      → flags.putx_keep_excl ≡ true
      → (d' : Dir C) × (put_dirty t c c flags false other d ≡ ok d')
        × IsDirectory t false ch d'
        × (t.state (d'.kids c) ≡ exclusive)
        × ((i : ℕ) → i ≢ c → d'.kids i ≡ d.kids i)
  unfolding put_dirty
  keep_exclusive-IsDirectory d c other flags g h x keep =
      let (alone, excl, listed) =
        listed_alone d c g h (modified_exclusive (t.state (d.kids c)) x) in
      let st = t.set_state exclusive (d.kids c) in
      (
        set_child t c exclusive d,
        rw (alone, keep, in_range t ch d c g h, listed, x) refl,
        subst
            (λ s.
              IsDirectory t false ch
                (record { entry = record d.entry { sharers = s }; kids = update d.kids c st }))
            (fun_ext (update-id d.entry.sharers c true listed))
            (change t false ch d c d.entry.num_sharers d.entry.is_excl true exclusive h g.fits
              (λ i p r. g.okay i p)
              (ch.raise exclusive (d.kids c) (g.okay c h) (Rises-exclusive (t.state (d.kids c))))
              (λ i p r. g.listed i p) refl (omega (arith, g.counted, ap bit listed)) g.single
              (λ i p r. g.excl i p) (ap (λ y. y && true) (sym excl))),
        ap t.state (update-same d.kids c st) ∙ ch.state_set exclusive (d.kids c),
        λ i r. update-other d.kids c st i (λ y. r (sym y)),
      )
