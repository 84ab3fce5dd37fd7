-- ===== src/Coherence/Top/Gets.antt =====
-- A child that asks for a line without need of exclusive permission.
use bzsim.Base.{
  ℕ, ◌+◌, ◌%◌, ◌^◌, ◌≤◌, ◌<◌, ◌≡◌, ◌≢◌, refl, sym, ap, ◌∙◌, Bool, true, false, not, ◌&&◌,
  Bool-cases, and-false, ◌⊎◌, inl, inr, ok, arith, if◌then◌else◌, bit, update, update-same,
  update-other, eq_of_==,
}
use bzsim.Coherence.Permission.{Rises-invalid}
use bzsim.Coherence.{shared, exclusive, invx, Flags, is_invalid, has_exclusive}
use bzsim.Coherence.Top.{
  TopConfig, Dir, is_empty, is_exclusive, get_shared, get_line, send_invalidates,
}
use bzsim.Coherence.Top.Children.{IsChild}
use bzsim.Coherence.Top.Sweep.{invalid-dirty, invalid-exclusive}
use bzsim.Coherence.Top.Directory.{
  IsDirectory, dirty_below, send_invx-Lowered, empty-invalid, any-false,
}
use bzsim.Coherence.Top.Serve.{change, in_range, count_le, plus_one}

three : (a b c : Bool) → (a && b && not c) ≡ true → (a ≡ true) × (b ≡ true) × (c ≡ false)
three a b c h = (ground arith, ground arith, ground arith)

module _ {C : Type 0} (t : TopConfig C) (ch : IsChild t false) where
  -- Nothing is sent where the entry is not exclusive, with the test or without.
  skip_invx :
      (d : Dir C) (cycle src_id : ℕ)
      → (if is_exclusive d.entry
          then send_invalidates t invx cycle src_id false d
          else ok (d, false, cycle))
        ≡ send_invalidates t invx cycle src_id false d
  unfolding send_invalidates
  skip_invx d cycle src_id = elim (Bool-cases (is_exclusive d.entry)) [
    | inl e ↦ rw (e) refl
    | inr e ↦ rw (e) refl
  ]

  -- The child shares the line with the others, of which none keeps exclusive permission.
  pub get_shared-IsDirectory :
      (d : Dir C) (c cycle src_id : ℕ)
      → IsDirectory t false ch d
      → c < t.children_size
      → is_invalid (t.state (d.kids c)) ≡ true
      → (d' : Dir C) × (resp : ℕ) × (get_shared t c c cycle src_id false d
          ≡ ok (d', dirty_below t false ch d, resp))
        × IsDirectory t false ch d'
        × (t.state (d'.kids c) ≡ shared)
        × ((i : ℕ) → i < t.children_size → i ≢ c → has_exclusive (t.state (d'.kids i)) ≡ false)
        × (cycle ≤ resp)
  unfolding get_shared
  get_shared-IsDirectory d c cycle src_id g h x =
      let (d1, resp, sent, q) = send_invx-Lowered t false ch cycle src_id d g in
      let free : d.entry.sharers c ≡ false = g.listed c h ∙ ap not x in
      let free1 : d1.entry.sharers c ≡ false = q.directory.listed c h ∙ ap not (q.same c h ∙ x) in
      let few : d1.entry.num_sharers ≤ 256 =
        omega (arith, q.directory.counted, count_le t.children_size d1.entry.sharers, g.fits) in
      let more = plus_one d1.entry.num_sharers few in
      let st = t.set_state shared (d1.kids c) in
      (
        record {
          entry = record {
            num_sharers = (d1.entry.num_sharers + 1) % 2 ^ 32;
            sharers = update d1.entry.sharers c true;
            is_excl = false;
          };
          kids = update d1.kids c st;
        },
        resp,
        rw (in_range t ch d c g h, free, skip_invx d cycle src_id, sent, q.not_exclusive) refl,
        change t false ch d1 c ((d1.entry.num_sharers + 1) % 2 ^ 32) false true shared h g.fits
            (λ i p r. q.directory.okay i p)
            (ch.raise shared (d1.kids c) (q.directory.okay c h)
              (Rises-invalid (t.state (d1.kids c)) shared (q.same c h ∙ x)))
            (λ i p r. q.directory.listed i p) refl
            (omega (arith, more, q.directory.counted, ap bit free1)) (λ y. cc)
            (λ i p r. q.lowered i p) refl,
        ap t.state (update-same d1.kids c st) ∙ ch.state_set shared (d1.kids c),
        λ i p r.
            ap (λ y. has_exclusive (t.state y)) (update-other d1.kids c st i (λ y. r (sym y)))
            ∙ q.lowered i p,
        q.later,
      )

  -- GETS.
  pub get_line-IsDirectory :
      (d : Dir C) (c cycle src_id : ℕ) (have_exclusive : Bool) (flags : Flags)
      → IsDirectory t false ch d
      → c < t.children_size
      → is_invalid (t.state (d.kids c)) ≡ true
      → (d' : Dir C) × (resp : ℕ) × (get_line t c c have_exclusive cycle src_id flags false d
          ≡ ok (d', dirty_below t false ch d, resp))
        × IsDirectory t false ch d'
        × ((t.state (d'.kids c) ≡ shared)
            ⊎ ((t.state (d'.kids c) ≡ exclusive)
                × (have_exclusive ≡ true)
                × (flags.no_excl ≡ false)))
        × ((i : ℕ) → i < t.children_size → i ≢ c → has_exclusive (t.state (d'.kids i)) ≡ false)
        × (cycle ≤ resp)
  unfolding get_line
  get_line-IsDirectory d c cycle src_id have_exclusive flags g h x =
      elim (Bool-cases (is_empty d.entry && have_exclusive && not flags.no_excl)) [
        | inr e ↦
            let (d', resp, run, good, given, rest, late) =
              get_shared-IsDirectory d c cycle src_id g h x in
            (d', resp, rw (e) run, good, inl given, rest, late)
        | inl e ↦
            let (empty, have, permit) = three (is_empty d.entry) have_exclusive flags.no_excl e in
            let none = eq_of_== d.entry.num_sharers 0 empty in
            let gone = empty-invalid t false ch d g none in
            let st = t.set_state exclusive (d.kids c) in
            let off : (i : ℕ) → i < t.children_size → d.entry.sharers i ≡ false =
              λ i p. g.listed i p ∙ ap not (gone i p) in
            (
              record {
                entry = record {
                  num_sharers = 1;
                  sharers = update d.entry.sharers c true;
                  is_excl = true;
                };
                kids = update d.kids c st;
              },
              cycle,
              rw
                  (
                    e,
                    in_range t ch d c g h,
                    any-false t.children_size (λ i. ch.dirty (d.kids i))
                        (λ i p. invalid-dirty t false ch (d.kids i) (g.okay i p) (gone i p)),
                  )
                  refl,
              change t false ch d c 1 true true exclusive h g.fits (λ i p r. g.okay i p)
                  (ch.raise exclusive (d.kids c) (g.okay c h)
                    (Rises-invalid (t.state (d.kids c)) exclusive x))
                  (λ i p r. g.listed i p) refl (omega (arith, none, g.counted, ap bit (off c h)))
                  (λ y. omega arith)
                  (λ i p r.
                    g.excl i p
                    ∙ ap (λ y. d.entry.is_excl && y) (off i p)
                    ∙ and-false d.entry.is_excl
                    ∙ sym (off i p))
                  refl,
              inr (
                ap t.state (update-same d.kids c st) ∙ ch.state_set exclusive (d.kids c),
                have,
                permit,
              ),
              λ i p r.
                  ap (λ y. has_exclusive (t.state y)) (update-other d.kids c st i (λ y. r (sym y)))
                  ∙ invalid-exclusive (t.state (d.kids i)) (gone i p),
              omega arith,
            )
      ]
