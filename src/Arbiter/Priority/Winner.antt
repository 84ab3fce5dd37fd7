-- ===== src/Arbiter/Priority/Winner.antt =====
-- `Arbitrate` of the priority arbiter: which request wins, and where the loop runs off the list.
use bzsim.Base.{
  ℕ, ◌+◌, ◌-◌, ◌≤◌, ◌<◌, ◌≡◌, ◌⊎◌, refl, ◌∙◌, subst, inl, inr, pos, negsuc, ltb_ℤ, eqb_ℤ, ◌<ℤ◌,
  true, false, List, [], ◌∷◌, ltb, if◌then◌else◌, arith, Bool-cases,
}
use bzsim.Arbiter.Priority.{PriorityRequest, Best, better, scan}

abbrev pub IsIn : PriorityRequest → List PriorityRequest → Type 0
IsIn y [] = ⊥
IsIn y (x ∷ xs) = (x ≡ y) ⊎ IsIn y xs

-- At most one request for each input, in the order of the inputs.
abbrev pub IsSorted : List PriorityRequest → Type 0
IsSorted [] = Unit
IsSorted (x ∷ xs) = ((y : PriorityRequest) → IsIn y xs → x.input < y.input) × IsSorted xs

-- How far an input is from the pointer, round the inputs.
abbrev pub turn : ℕ → ℕ → ℕ → ℕ
turn ptr n i = if ltb i ptr then i + n - ptr else i - ptr

-- A request that gives way to `w`: of lower priority, or of the same and later.
abbrev pub GivesWay : ℕ → ℕ → PriorityRequest → PriorityRequest → Type 0
GivesWay ptr n w y =
    (y.pri <ℤ w.pri) ⊎ ((eqb_ℤ y.pri w.pri ≡ true) × (turn ptr n w.input ≤ turn ptr n y.input))

module _ (ptr n : ℕ) where
  -- `w` is the best of those that `P` tells, and the loop has it.
  pub record Chosen (b : Best) (P : PriorityRequest → Type 0) (w : PriorityRequest) : Type 0 where
    pub held : b ≡ (pos w.input, w.pri)
    pub seen : P w
    pub first : (y : PriorityRequest) → P y → GivesWay ptr n w y

  better-cases :
      (b : Best) (w x : PriorityRequest)
      → b ≡ (pos w.input, w.pri)
      → ((better b x ≡ (pos x.input, x.pri)) × (w.pri <ℤ x.pri))
        ⊎ ((better b x ≡ b) × (ltb_ℤ w.pri x.pri ≡ false))
  unfolding better
  better-cases b w x e = elim (Bool-cases (ltb_ℤ w.pri x.pri)) [
    | inl h ↦ inl (rw (e, h) refl, ground arith)
    | inr h ↦ inr (rw (e, h) refl, h)
  ]

  lower : (w x y : PriorityRequest) → GivesWay ptr n w y → w.pri <ℤ x.pri → y.pri <ℤ x.pri
  lower w x y (inl k) l = omega arith
  lower w x y (inr (k, t)) l = ground arith

  itself : (x : PriorityRequest) → GivesWay ptr n x x
  itself x = inr (ground arith, omega arith)

  not_lower :
      (w x : PriorityRequest)
      → ltb_ℤ w.pri x.pri ≡ false
      → turn ptr n w.input ≤ turn ptr n x.input
      → GivesWay ptr n w x
  not_lower w x l t = elim (Bool-cases (ltb_ℤ x.pri w.pri)) [
    | inl e ↦ inl (ground arith)
    | inr e ↦ inr (ground arith, t)
  ]

  -- One more request, which is later than those seen.
  pub better-Chosen :
      (b : Best) (P : PriorityRequest → Type 0) (w x : PriorityRequest)
      → Chosen b P w
      → ((y : PriorityRequest) → P y → turn ptr n y.input ≤ turn ptr n x.input)
      → (v : PriorityRequest) × Chosen (better b x) (λ y. P y ⊎ (x ≡ y)) v
  better-Chosen b P w x c h = elim (better-cases b w x c.held) [
    | inl (e, l) ↦ (
      x,
      record {
        held = e;
        seen = inr refl;
        first = λ y p. elim p [
          | inl q ↦ inl (lower w x y (c.first y q) l)
          | inr q ↦ subst (GivesWay ptr n x) q (itself x)
        ];
      },
    )
    | inr (e, l) ↦ (
      w,
      record {
        held = e ∙ c.held;
        seen = inl c.seen;
        first = λ y p. elim p [
          | inl q ↦ c.first y q
          | inr q ↦ subst (GivesWay ptr n w) q (not_lower w x l (h w c.seen))
        ];
      },
    )
  ]

  pub better-again :
      (b : Best) (P : PriorityRequest → Type 0) (w x : PriorityRequest)
      → Chosen b P w
      → P x
      → better b x ≡ b
  better-again b P w x c p = elim (better-cases b w x c.held) [
    | inl (e, l) ↦ absurd (elim (c.first x p) [ inl k ↦ omega arith | inr (k, t) ↦ ground arith ])
    | inr (e, l) ↦ e
  ]

  pub Chosen-map :
      {b : Best} {P Q : PriorityRequest → Type 0} {w : PriorityRequest}
      → ((y : PriorityRequest) → P y → Q y)
      → ((y : PriorityRequest) → Q y → P y)
      → Chosen b P w
      → Chosen b Q w
  Chosen-map f g c = record { held = c.held; seen = f _ c.seen; first = λ y q. c.first y (g y q) }

  taken : (x : PriorityRequest) → better (negsuc 0, pos 0) x ≡ (pos x.input, x.pri)
  unfolding better
  taken x = ground arith

  -- A list of later requests, each later than the one before.
  unfoldable pub Ascending : List PriorityRequest → Type 0
  Ascending [] = Unit
  Ascending (x ∷ xs) =
      ((y : PriorityRequest) → IsIn y xs → turn ptr n x.input ≤ turn ptr n y.input) × Ascending xs

  pub scan-Chosen :
      (b : Best) (P : PriorityRequest → Type 0) (w : PriorityRequest) (xs : List PriorityRequest)
      → Chosen b P w
      → Ascending xs
      → ((y z : PriorityRequest) → P y → IsIn z xs → turn ptr n y.input ≤ turn ptr n z.input)
      → (v : PriorityRequest) × Chosen (scan b xs) (λ y. P y ⊎ IsIn y xs) v
  unfolding scan Ascending
  scan-Chosen b P w [] c a h =
      (w, Chosen-map (λ y p. inl p) (λ y q. elim q [ inl p ↦ p | inr e ↦ absurd e ]) c)
  scan-Chosen b P w (x ∷ xs) c (a, rest) h =
      let (v, d) = better-Chosen b P w x c (λ y p. h y x p (inl refl)) in
      let (u, k) =
        scan-Chosen (better b x) (λ y. P y ⊎ (x ≡ y)) v xs d rest
          (λ y z p q. elim p [
            | inl t ↦ h y z t (inr q)
            | inr e ↦ subst (λ k. turn ptr n k.input ≤ turn ptr n z.input) e (a z q)
          ]) in
      (
        u,
        Chosen-map
            (λ y p. elim p [
              | inl t ↦ elim t [ inl r ↦ inl r | inr e ↦ inr (inl e) ]
              | inr q ↦ inr (inr q)
            ])
            (λ y p. elim p [
              | inl t ↦ inl (inl t)
              | inr q ↦ elim q [ inl e ↦ inl (inr e) | inr r ↦ inr r ]
            ])
            k,
      )

  -- The first request of a scan is taken whatever its priority.
  pub scan_first :
      (x : PriorityRequest) (xs : List PriorityRequest)
      → Ascending (x ∷ xs)
      → (v : PriorityRequest) × Chosen (scan (negsuc 0, pos 0) (x ∷ xs)) (λ y. IsIn y (x ∷ xs)) v
  unfolding scan Ascending
  scan_first x xs (a, rest) =
      let start : Chosen (better (negsuc 0, pos 0) x) (λ y. x ≡ y) x = record {
        held = taken x;
        seen = refl;
        first = λ y e. subst (GivesWay ptr n x) e (itself x);
      } in
      scan-Chosen (better (negsuc 0, pos 0) x) (λ y. x ≡ y) x xs start rest
        (λ y z e q. subst (λ k. turn ptr n k.input ≤ turn ptr n z.input) e (a z q))
