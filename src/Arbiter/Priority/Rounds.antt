-- ===== src/Arbiter/Priority/Rounds.antt =====
-- The order in which `Arbitrate` of the priority arbiter reads the list: from the pointer to the end,
-- and then from the beginning up to the pointer.
use bzsim.Base.{
  ℕ, ◌≤◌, ◌<◌, ◌≡◌, ◌⊎◌, refl, sym, ap, ◌∙◌, subst, inl, inr, pos, negsuc, true, false, List, [],
  ◌∷◌, ltb, ok, stop, arith, Bool-cases, lt→ltb, ltb→lt,
}
use bzsim.Base.Fault.{undefined}
use bzsim.Arbiter.Priority.{PriorityRequest, Best, before, from, better, scan, scan_wrapped, search}
use bzsim.Arbiter.Priority.Winner.{
  IsIn, IsSorted, turn, Chosen, Ascending, better-Chosen, better-again, Chosen-map, scan-Chosen,
  scan_first,
}

module _ (ptr : ℕ) where
  -- A request stands before the pointer or from it on.
  sides :
      (y : PriorityRequest) (xs : List PriorityRequest)
      → IsSorted xs
      → IsIn y xs
      → ((y.input < ptr) × IsIn y (before ptr xs)) ⊎ ((ptr ≤ y.input) × IsIn y (from ptr xs))
  unfolding before from
  sides y [] s h = absurd h
  sides y (x ∷ xs) (l, s) h = elim (Bool-cases (ltb x.input ptr)) [
    | inl e ↦ rw (e) (elim h [
      | inl q ↦ inl (subst (λ (k : PriorityRequest). k.input < ptr) q (ground arith), inl q)
      | inr t ↦ elim (sides y xs s t) [ inl (b, i) ↦ inl (b, inr i) | inr (b, i) ↦ inr (b, i) ]
    ])
    | inr e ↦ rw (e) (
        inr (
          elim h [
            | inl q ↦ subst (λ (k : PriorityRequest). ptr ≤ k.input) q (ground arith)
            | inr t ↦ let a = l y t in ground arith
          ],
          h,
        ))
  ]

  module _ (x : PriorityRequest) (xs : List PriorityRequest) where
    pub before_below : ltb x.input ptr ≡ true → before ptr (x ∷ xs) ≡ x ∷ before ptr xs
    unfolding before
    before_below e = rw (e) refl

    pub before_above : ltb x.input ptr ≡ false → before ptr (x ∷ xs) ≡ []
    unfolding before
    before_above e = rw (e) refl

    pub from_below : ltb x.input ptr ≡ true → from ptr (x ∷ xs) ≡ from ptr xs
    unfolding from
    from_below e = rw (e) refl

    pub from_above : ltb x.input ptr ≡ false → from ptr (x ∷ xs) ≡ x ∷ xs
    unfolding from
    from_above e = rw (e) refl

  -- What stands before the pointer: requests of the list, below it and in order.
  pub before-IsIn :
      (y : PriorityRequest) (xs : List PriorityRequest)
      → IsIn y (before ptr xs)
      → IsIn y xs × (y.input < ptr)
  unfolding before
  before-IsIn y [] h = absurd h
  before-IsIn y (x ∷ xs) h = elim (Bool-cases (ltb x.input ptr)) [
    | inl e ↦ elim (subst (IsIn y) (before_below x xs e) h) [
      | inl q ↦ (inl q, subst (λ (k : PriorityRequest). k.input < ptr) q (ground arith))
      | inr t ↦ let (i, b) = before-IsIn y xs t in (inr i, b)
    ]
    | inr e ↦ absurd (subst (IsIn y) (before_above x xs e) h)
  ]

  pub before-IsSorted : (xs : List PriorityRequest) → IsSorted xs → IsSorted (before ptr xs)
  unfolding before
  before-IsSorted [] s = tt
  before-IsSorted (x ∷ xs) (l, s) = elim (Bool-cases (ltb x.input ptr)) [
    | inl e ↦
        subst IsSorted (sym (before_below x xs e))
          (λ y h. l y (before-IsIn y xs h).0, before-IsSorted xs s)
    | inr e ↦ subst IsSorted (sym (before_above x xs e)) tt
  ]

  -- What stands from the pointer on.
  pub from-IsIn :
      (y : PriorityRequest) (xs : List PriorityRequest)
      → IsSorted xs
      → IsIn y (from ptr xs)
      → IsIn y xs × (ptr ≤ y.input)
  unfolding from
  from-IsIn y [] s h = absurd h
  from-IsIn y (x ∷ xs) (l, s) h = elim (Bool-cases (ltb x.input ptr)) [
    | inl e ↦ let (i, b) = from-IsIn y xs s (subst (IsIn y) (from_below x xs e) h) in (inr i, b)
    | inr e ↦ elim (subst (IsIn y) (from_above x xs e) h) [
      | inl q ↦ (inl q, subst (λ (k : PriorityRequest). ptr ≤ k.input) q (ground arith))
      | inr t ↦ let a = l y t in (inr t, ground arith)
    ]
  ]

  pub from-IsSorted : (xs : List PriorityRequest) → IsSorted xs → IsSorted (from ptr xs)
  unfolding from
  from-IsSorted [] s = tt
  from-IsSorted (x ∷ xs) (l, s) = elim (Bool-cases (ltb x.input ptr)) [
    | inl e ↦ subst IsSorted (sym (from_below x xs e)) (from-IsSorted xs s)
    | inr e ↦ subst IsSorted (sym (from_above x xs e)) (l, s)
  ]

  -- Once wrapped around, the loop ends at a request that is not below the pointer.
  scan_wrapped-before :
      (b : Best) (y : PriorityRequest) (xs : List PriorityRequest)
      → IsIn y xs
      → ptr ≤ y.input
      → scan_wrapped ptr b xs ≡ ok (scan b (before ptr xs))
  unfolding scan_wrapped scan
  scan_wrapped-before b y [] h l = absurd h
  scan_wrapped-before b y (x ∷ xs) h l = elim (Bool-cases (ltb x.input ptr)) [
    | inl e ↦ elim h [
      | inl q ↦ let a = ap (λ (k : PriorityRequest). k.input) q in absurd (ground arith)
      | inr t ↦ rw (e, before_below x xs e) (scan_wrapped-before (better b x) y xs t l)
    ]
    | inr e ↦ rw (e, before_above x xs e) refl
  ]

  -- And without one it reads past the end of the list.
  pub scan_wrapped-undefined :
      (b : Best) (xs : List PriorityRequest)
      → ((y : PriorityRequest) → IsIn y xs → y.input < ptr)
      → scan_wrapped ptr b xs ≡ stop undefined
  unfolding scan_wrapped
  scan_wrapped-undefined b [] h = refl
  scan_wrapped-undefined b (x ∷ xs) h =
      rw (lt→ltb x.input ptr (h x (inl refl)))
        (scan_wrapped-undefined (better b x) xs (λ y i. h y (inr i)))

  before_none :
      (xs : List PriorityRequest)
      → ((y : PriorityRequest) → IsIn y xs → ptr ≤ y.input)
      → before ptr xs ≡ []
  unfolding before
  before_none [] h = refl
  before_none (x ∷ xs) h = let l = h x (inl refl) in before_above x xs (ground arith)

  module _ (n : ℕ) where
    IsSorted-Ascending :
        (xs : List PriorityRequest)
        → IsSorted xs
        → ((y z : PriorityRequest)
            → IsIn y xs
            → IsIn z xs
            → y.input < z.input
            → turn ptr n y.input ≤ turn ptr n z.input)
        → Ascending ptr n xs
    unfolding Ascending
    IsSorted-Ascending [] s h = tt
    IsSorted-Ascending (x ∷ xs) (l, s) h = (
      λ y i. h x y (inl refl) (inr i) (l y i),
      IsSorted-Ascending xs s (λ y z i j k. h y z (inr i) (inr j) k),
    )

    above_ptr :
        (x k : PriorityRequest) → ltb x.input ptr ≡ false → x.input < k.input → ptr ≤ k.input
    above_ptr x k e l = ground arith

    later-from :
        (y z : PriorityRequest)
        → ptr ≤ y.input
        → y.input < z.input
        → turn ptr n y.input ≤ turn ptr n z.input
    later-from y z p h = ground arith

    later-before :
        (y z : PriorityRequest)
        → z.input < ptr
        → y.input < z.input
        → turn ptr n y.input ≤ turn ptr n z.input
    later-before y z p h = ground arith

    wraps :
        (y z : PriorityRequest)
        → ptr ≤ y.input
        → y.input < n
        → z.input < ptr
        → turn ptr n y.input ≤ turn ptr n z.input
    wraps y z p l h = ground arith

    from-Ascending : (xs : List PriorityRequest) → IsSorted xs → Ascending ptr n (from ptr xs)
    from-Ascending xs s =
        IsSorted-Ascending (from ptr xs) (from-IsSorted xs s)
          (λ y z i j. later-from y z (from-IsIn y xs s i).1)

    before-Ascending : (xs : List PriorityRequest) → IsSorted xs → Ascending ptr n (before ptr xs)
    before-Ascending xs s =
        IsSorted-Ascending (before ptr xs) (before-IsSorted xs s)
          (λ y z i j. later-before y z (before-IsIn z xs j).1)

    -- The list from the pointer on, read first.
    read_from :
        (y : PriorityRequest) (l : List PriorityRequest)
        → IsSorted l
        → IsIn y l
        → ptr ≤ y.input
        → (v : PriorityRequest) × Chosen ptr n
            (scan (negsuc 0, pos 0) (from ptr l))
            (λ k. IsIn k (from ptr l))
            v
    read_from y l s i h = go (from ptr l) (inside (sides y l s i)) (from-Ascending l s)
      where
        inside :
            ((y.input < ptr) × IsIn y (before ptr l)) ⊎ ((ptr ≤ y.input) × IsIn y (from ptr l))
            → IsIn y (from ptr l)
        inside (inl (b, j)) = absurd (omega arith)
        inside (inr (b, j)) = j

        go :
            (q : List PriorityRequest)
            → IsIn y q
            → Ascending ptr n q
            → (v : PriorityRequest) × Chosen ptr n (scan (negsuc 0, pos 0) q) (λ k. IsIn k q) v
        go [] j a = absurd j
        go (x ∷ xs) j a = scan_first ptr n x xs a

    -- The whole loop.
    pub search-Chosen :
        (x y : PriorityRequest) (xs : List PriorityRequest)
        → IsSorted (x ∷ xs)
        → ((k : PriorityRequest) → IsIn k (x ∷ xs) → k.input < n)
        → IsIn y xs
        → ptr ≤ y.input
        → (b : Best) × (v : PriorityRequest) × (search ptr (x ∷ xs) ≡ ok b)
          × Chosen ptr n b (λ k. IsIn k (x ∷ xs)) v
    unfolding search scan
    search-Chosen x y xs s w i h =
        let (v, c) = read_from y (x ∷ xs) s (inr i) h in
        let start = scan (negsuc 0, pos 0) (from ptr (x ∷ xs)) in
        let e = scan_wrapped-before (better start x) y xs i h in
        elim (Bool-cases (ltb x.input ptr)) [
          | inr above ↦
              let d =
                Chosen-map ptr n (λ k p. (from-IsIn k (x ∷ xs) s p).0)
                  (λ k p. subst (IsIn k) (sym (from_above x xs above)) p) c in
              let same = better-again ptr n start (λ k. IsIn k (x ∷ xs)) v x d (inl refl) in
              (
                start,
                v,
                e
                    ∙ ap ok (
                        ap (scan (better start x))
                          (before_none xs (λ k j. above_ptr x k above (s.0 k j)))
                        ∙ same),
                d,
              )
          | inl below ↦
              let up = λ (k : PriorityRequest) (p : IsIn k (from ptr (x ∷ xs))).
                from-IsIn k (x ∷ xs) s p in
              let (u, d) =
                better-Chosen ptr n start (λ k. IsIn k (from ptr (x ∷ xs))) v x c
                  (λ k p. wraps k x (up k p).1 (w k (up k p).0) (ltb→lt x.input ptr below)) in
              let (t, f) =
                scan-Chosen ptr n (better start x) (λ k. IsIn k (from ptr (x ∷ xs)) ⊎ (x ≡ k)) u
                  (before ptr xs) d (before-Ascending xs s.1)
                  (λ k z p j. elim p [
                    | inl q ↦ wraps k z (up k q).1 (w k (up k q).0) (before-IsIn z xs j).1
                    | inr q ↦
                        subst (λ (r : PriorityRequest). turn ptr n r.input ≤ turn ptr n z.input) q
                          (later-before x z (before-IsIn z xs j).1 (s.0 z (before-IsIn z xs j).0))
                  ]) in
              (
                scan (better start x) (before ptr xs),
                t,
                e,
                Chosen-map ptr n
                    (λ k p. elim p [
                      | inl q ↦ elim q [ inl r ↦ (up k r).0 | inr r ↦ inl r ]
                      | inr q ↦ inr (before-IsIn k xs q).0
                    ])
                    (λ k p. elim p [
                      | inl q ↦ inl (inr q)
                      | inr q ↦ elim (sides k xs s.1 q) [
                        | inl (b, j) ↦ inr j
                        | inr (b, j) ↦ inl (inl (subst (IsIn k) (sym (from_below x xs below)) j))
                      ]
                    ])
                    f,
              )
        ]
