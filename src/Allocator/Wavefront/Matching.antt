-- ===== src/Allocator/Wavefront/Matching.antt =====
-- What `Allocate` of the wavefront allocator grants is a matching of requests, and it grants
-- something.
use bzsim.Base.{
  ℕ, zero, suc, ◌<◌, ◌==◌, ◌≡◌, ◌≢◌, refl, sym, ap, ◌∙◌, subst, ◌⊎◌, inl, inr, ℤ, pos, negsuc,
  is_negative, eqb_ℤ, eq_of_eqb_ℤ, Bool, true, false, not, Bool-cases, both, List, [], ◌∷◌,
  if◌then◌else◌, ltb, ltb→lt, update, update-same, update-other, ==-of-eq, eq_of_==, arith,
}
use bzsim.Allocator.{none_yet}
use bzsim.Allocator.Wavefront.{
  Wavefront, Grants, grant, grantable, input_at, scan_diagonal, scan_diagonals, scan_levels,
}

-- The request of input `i` for output `j` is there.
abbrev pub Asks : Wavefront → ℕ → ℕ → Type 0
Asks w i j = (i < w.inputs) × (j < w.outputs) × (eqb_ℤ (w.request i j).label none_yet ≡ false)

-- Inputs and outputs are matched with each other, and only where there is a request.
abbrev pub IsMatching : Wavefront → (ℕ → ℤ) → (ℕ → ℤ) → Type 0
IsMatching w inmatch outmatch =
    ((i j : ℕ) → inmatch i ≡ pos j → (outmatch j ≡ pos i) × Asks w i j)
    × ((i j : ℕ) → outmatch j ≡ pos i → inmatch i ≡ pos j)

pos_inj : {a b : ℕ} → pos a ≡ pos b → a ≡ b
pos_inj e = cc

negative : {a : ℕ} {z : ℤ} → z ≡ negsuc 0 → z ≡ pos a → ⊥
negative e f = let g : pos _ ≡ negsuc 0 = sym f ∙ e in cc

-- One more grant, to an input and an output that are free.
pub grant-IsMatching :
    (w : Wavefront) (i j : ℕ) (inmatch outmatch : ℕ → ℤ)
    → IsMatching w inmatch outmatch
    → inmatch i ≡ negsuc 0
    → outmatch j ≡ negsuc 0
    → Asks w i j
    → IsMatching w (update inmatch i (pos j)) (update outmatch j (pos i))
grant-IsMatching w i j inmatch outmatch m fi fj asks = (forth, back)
  where
    forth :
        (a b : ℕ)
        → update inmatch i (pos j) a ≡ pos b
        → (update outmatch j (pos i) b ≡ pos a) × Asks w a b
    forth a b e = elim (Bool-cases (i == a)) [
      | inl p ↦
          let q = eq_of_== i a p in
          let r : j ≡ b =
            pos_inj (sym (update-same inmatch i (pos j)) ∙ ap (update inmatch i (pos j)) q ∙ e) in
          subst (λ x. (update outmatch j (pos i) b ≡ pos x) × Asks w x b) q
            (subst (λ y. (update outmatch j (pos i) y ≡ pos i) × Asks w i y) r
              (update-same outmatch j (pos i), asks))
      | inr p ↦
          let old =
            sym (update-other inmatch i (pos j) a (λ q. let s = ==-of-eq i a q in cc)) ∙ e in
          let (here, there) = m.0 a b old in
          (
            update-other outmatch j (pos i) b (λ q. negative fj (ap outmatch q ∙ here)) ∙ here,
            there,
          )
    ]

    back : (a b : ℕ) → update outmatch j (pos i) b ≡ pos a → update inmatch i (pos j) a ≡ pos b
    back a b e = elim (Bool-cases (j == b)) [
      | inl p ↦
          let q = eq_of_== j b p in
          let r : i ≡ a =
            pos_inj (sym (update-same outmatch j (pos i)) ∙ ap (update outmatch j (pos i)) q ∙ e) in
          subst (λ x. update inmatch i (pos j) x ≡ pos b) r
            (update-same inmatch i (pos j) ∙ ap pos q)
      | inr p ↦
          let old =
            sym (update-other outmatch j (pos i) b (λ q. let s = ==-of-eq j b q in cc)) ∙ e in
          let here = m.1 a b old in
          update-other inmatch i (pos j) a (λ q. negative fi (ap inmatch q ∙ here)) ∙ here
    ]

-- The pair is in the list.
abbrev pub Holds : ℤ × ℤ → List (ℤ × ℤ) → Type 0
Holds x [] = ⊥
Holds x (y ∷ ys) = (x ≡ y) ⊎ Holds x ys

not-true : (b : Bool) → not b ≡ true → b ≡ false
not-true true h = cc
not-true false h = refl

module _ (w : Wavefront) where
  -- The matches so far are a matching; and nothing has happened yet, or something was granted.
  abbrev pub IsFair : Grants → Type 0
  IsFair g = IsMatching w g.inmatch g.outmatch

  abbrev pub IsStarted : Grants → Type 0
  IsStarted g = (is_negative g.first_diag ≡ false) × ((i : ℕ) × (j : ℕ) × (g.inmatch i ≡ pos j))

  -- What the test says.
  grantable-Asks :
      (level : ℤ × ℤ) (i j : ℕ) (g : Grants)
      → grantable w level i j g ≡ true
      → (g.inmatch i ≡ negsuc 0) × (g.outmatch j ≡ negsuc 0) × Asks w i j
  unfolding grantable
  grantable-Asks level i j g h =
      let (a, h1) = both (ltb i w.inputs) _ h in
      let (b, h2) = both (ltb j w.outputs) _ h1 in
      let (c, h3) = both (eqb_ℤ (g.inmatch i) none_yet) _ h2 in
      let (d, h4) = both (eqb_ℤ (g.outmatch j) none_yet) _ h3 in
      let (e, h5) = both (not (eqb_ℤ (w.request i j).label none_yet)) _ h4 in
      (
        eq_of_eqb_ℤ (g.inmatch i) none_yet c,
        eq_of_eqb_ℤ (g.outmatch j) none_yet d,
        (
          ltb→lt i w.inputs a,
          ltb→lt j w.outputs b,
          not-true (eqb_ℤ (w.request i j).label none_yet) e,
        ),
      )

  grant-IsStarted : (i j : ℕ) (g : Grants) → IsStarted (grant i j g)
  grant-IsStarted i j g = (marked, (i, j, update-same g.inmatch i (pos j)))
    where
      marked : is_negative (grant i j g).first_diag ≡ false
      marked = elim (Bool-cases (is_negative g.first_diag)) [
        | inl e ↦ rw (e) refl
        | inr e ↦ rw (e) e
      ]

  -- One cell keeps what holds.
  abbrev cell : Bool → ℕ → ℕ → Grants → Grants
  cell b i j g = if b then grant i j g else g

  cell-IsStarted : (b : Bool) (i j : ℕ) (g : Grants) → IsStarted g → IsStarted (cell b i j g)
  cell-IsStarted true i j g h = grant-IsStarted i j g
  cell-IsStarted false i j g h = h

  cell-IsFair :
      (level : ℤ × ℤ) (i j : ℕ) (g : Grants)
      → IsFair g
      → IsFair (cell (grantable w level i j g) i j g)
  cell-IsFair level i j g h = elim (Bool-cases (grantable w level i j g)) [
    | inl e ↦
        let (fi, fj, asks) = grantable-Asks level i j g e in
        rw (e) (grant-IsMatching w i j g.inmatch g.outmatch h fi fj asks)
    | inr e ↦ rw (e) h
  ]

  -- A fair state in which something was granted, or that is the first.
  abbrev pub IsOn : Grants → Grants → Type 0
  IsOn first g = IsFair g × (IsStarted g ⊎ (g ≡ first))

  cell-IsOn :
      (level : ℤ × ℤ) (i j : ℕ) (first g : Grants)
      → IsOn first g
      → IsOn first (cell (grantable w level i j g) i j g)
  cell-IsOn level i j first g (fair, inl on) =
      (cell-IsFair level i j g fair, inl (cell-IsStarted (grantable w level i j g) i j g on))
  cell-IsOn level i j first g (fair, inr e) =
      (cell-IsFair level i j g fair, either (grantable w level i j g))
    where
      either : (b : Bool) → IsStarted (cell b i j g) ⊎ (cell b i j g ≡ first)
      either true = inl (grant-IsStarted i j g)
      either false = inr e

  -- The cell of a request that the first state could grant.
  cell-hit :
      (level : ℤ × ℤ) (i j : ℕ) (first g : Grants)
      → IsOn first g
      → grantable w level i j first ≡ true
      → IsStarted (cell (grantable w level i j g) i j g)
  cell-hit level i j first g (fair, inl on) h = cell-IsStarted (grantable w level i j g) i j g on
  cell-hit level i j first g (fair, inr e) h =
      let p : grantable w level i j g ≡ true = ap (grantable w level i j) e ∙ h in
      rw (p) (grant-IsStarted i j g)

  module _ (level : ℤ × ℤ) (first : Grants) where
    scan_diagonal-IsOn :
        (n p : ℕ) (g : Grants) → IsOn first g → IsOn first (scan_diagonal n w level p g)
    unfolding scan_diagonal
    scan_diagonal-IsOn zero p g h = h
    scan_diagonal-IsOn (suc n) p g h =
        cell-IsOn level (input_at w p n) n first (scan_diagonal n w level p g)
          (scan_diagonal-IsOn n p g h)

    scan_diagonal-hit :
        (n p j : ℕ) (g : Grants)
        → IsOn first g
        → j < n
        → grantable w level (input_at w p j) j first ≡ true
        → IsStarted (scan_diagonal n w level p g)
    unfolding scan_diagonal
    scan_diagonal-hit zero p j g h q r = absurd (omega arith)
    scan_diagonal-hit (suc n) p j g h q r = elim (Bool-cases (n == j)) [
      | inl e ↦
          cell-hit level (input_at w p n) n first (scan_diagonal n w level p g)
            (scan_diagonal-IsOn n p g h)
            (subst (λ k. grantable w level (input_at w p k) k first ≡ true) (sym (eq_of_== n j e))
              r)
      | inr e ↦
          cell-IsStarted (grantable w level (input_at w p n) n (scan_diagonal n w level p g))
            (input_at w p n) n (scan_diagonal n w level p g)
            (scan_diagonal-hit n p j g h
              (let f : n ≢ j = λ x. let y = ==-of-eq n j x in cc in omega arith) r)
    ]

    scan_diagonals-IsOn :
        (n : ℕ) (g : Grants) → IsOn first g → IsOn first (scan_diagonals n w level g)
    unfolding scan_diagonals
    scan_diagonals-IsOn zero g h = h
    scan_diagonals-IsOn (suc n) g h =
        scan_diagonal-IsOn w.square n (scan_diagonals n w level g) (scan_diagonals-IsOn n g h)

    scan_diagonal-IsStarted :
        (n p : ℕ) (g : Grants) → IsStarted g → IsStarted (scan_diagonal n w level p g)
    unfolding scan_diagonal
    scan_diagonal-IsStarted zero p g h = h
    scan_diagonal-IsStarted (suc n) p g h =
        cell-IsStarted (grantable w level (input_at w p n) n (scan_diagonal n w level p g))
          (input_at w p n) n (scan_diagonal n w level p g) (scan_diagonal-IsStarted n p g h)

    scan_diagonals-IsStarted :
        (n : ℕ) (g : Grants) → IsStarted g → IsStarted (scan_diagonals n w level g)
    unfolding scan_diagonals
    scan_diagonals-IsStarted zero g h = h
    scan_diagonals-IsStarted (suc n) g h =
        scan_diagonal-IsStarted w.square n (scan_diagonals n w level g)
          (scan_diagonals-IsStarted n g h)

    scan_diagonals-hit :
        (n p j : ℕ) (g : Grants)
        → IsOn first g
        → p < n
        → j < w.square
        → grantable w level (input_at w p j) j first ≡ true
        → IsStarted (scan_diagonals n w level g)
    unfolding scan_diagonals
    scan_diagonals-hit zero p j g h q s r = absurd (omega arith)
    scan_diagonals-hit (suc n) p j g h q s r = elim (Bool-cases (n == p)) [
      | inl e ↦
          scan_diagonal-hit w.square n j (scan_diagonals n w level g) (scan_diagonals-IsOn n g h) s
            (subst (λ k. grantable w level (input_at w k j) j first ≡ true) (sym (eq_of_== n p e))
              r)
      | inr e ↦ scan_diagonal-IsStarted w.square n (scan_diagonals n w level g) (
          scan_diagonals-hit n p j g h
            (let f : n ≢ p = λ x. let y = ==-of-eq n p x in cc in omega arith) s r)
    ]

  pub scan_levels-IsOn :
      (levels : List (ℤ × ℤ)) (first g : Grants)
      → IsOn first g
      → IsOn first (scan_levels levels w g)
  unfolding scan_levels
  scan_levels-IsOn [] first g h = h
  scan_levels-IsOn (x ∷ levels) first g h =
      scan_levels-IsOn levels first (scan_diagonals w.square w x g)
        (scan_diagonals-IsOn x first w.square g h)

  scan_levels-IsStarted :
      (levels : List (ℤ × ℤ)) (g : Grants) → IsStarted g → IsStarted (scan_levels levels w g)
  unfolding scan_levels
  scan_levels-IsStarted [] g h = h
  scan_levels-IsStarted (x ∷ levels) g h =
      scan_levels-IsStarted levels (scan_diagonals w.square w x g)
        (scan_diagonals-IsStarted x g w.square g h)

  pub scan_levels-hit :
      (levels : List (ℤ × ℤ)) (first g : Grants) (level : ℤ × ℤ) (p j : ℕ)
      → IsOn first g
      → Holds level levels
      → p < w.square
      → j < w.square
      → grantable w level (input_at w p j) j first ≡ true
      → IsStarted (scan_levels levels w g)
  unfolding scan_levels
  scan_levels-hit [] first g level p j h k q s r = absurd k
  scan_levels-hit (x ∷ levels) first g level p j h (inl e) q s r =
      scan_levels-IsStarted levels (scan_diagonals w.square w x g) (
        scan_diagonals-hit x first w.square p j g h q s
          (subst (λ y. grantable w y (input_at w p j) j first ≡ true) e r))
  scan_levels-hit (x ∷ levels) first g level p j h (inr k) q s r =
      scan_levels-hit levels first (scan_diagonals w.square w x g) level p j
        (scan_diagonals-IsOn x first w.square g h) k q s r
