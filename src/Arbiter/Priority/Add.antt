-- ===== src/Arbiter/Priority/Add.antt =====
-- `AddRequest` of the priority arbiter keeps its list in order, and the best request of each input.
use bzsim.Base.{
  ℕ, ◌≤◌, ◌<◌, ◌≡◌, ◌⊎◌, refl, subst, sym, inl, inr, ℤ, ltb_ℤ, List, [], ◌∷◌, ◌++◌, ◌==◌,
  Bool-cases, Option, none, some, true, false, ltb, if◌then◌else◌, arith, eq_of_==, ==-of-eq, ◌≢◌,
}
use native.Mathlib.Decide.{dec_lt}
use bzsim.Arbiter.Priority.{PriorityRequest, PriorityArbiter, before, from, insert_at, add_request}
use bzsim.Arbiter.Priority.Winner.{IsIn, IsSorted}
use bzsim.Arbiter.Priority.Rounds.{
  before-IsIn, before-IsSorted, from-IsIn, from-IsSorted, before_below, before_above, from_below,
  from_above,
}

IsIn-append :
    (y : PriorityRequest) (xs ys : List PriorityRequest) → IsIn y (xs ++ ys) → IsIn y xs ⊎ IsIn y ys
IsIn-append y [] ys h = inr h
IsIn-append y (x ∷ xs) ys (inl e) = inl (inl e)
IsIn-append y (x ∷ xs) ys (inr h) = elim (IsIn-append y xs ys h) [
  | inl i ↦ inl (inr i)
  | inr i ↦ inr i
]

pub IsSorted-append :
    (xs ys : List PriorityRequest)
    → IsSorted xs
    → IsSorted ys
    → ((x y : PriorityRequest) → IsIn x xs → IsIn y ys → x.input < y.input)
    → IsSorted (xs ++ ys)
IsSorted-append [] ys s t h = t
IsSorted-append (x ∷ xs) ys (l, s) t h = (
  λ y i. elim (IsIn-append y xs ys i) [ inl j ↦ l y j | inr j ↦ h x y (inl refl) j ],
  IsSorted-append xs ys s t (λ z y i j. h z y (inr i) j),
)

-- The three outcomes at the insertion point.
insert_at-cases :
    (r x : PriorityRequest) (xs : List PriorityRequest)
    → ((insert_at r (x ∷ xs) ≡ r ∷ xs) × (x.input ≡ r.input))
      ⊎ (insert_at r (x ∷ xs) ≡ x ∷ xs)
      ⊎ ((insert_at r (x ∷ xs) ≡ r ∷ x ∷ xs) × (x.input ≢ r.input))
unfolding insert_at
insert_at-cases r x xs = elim (Bool-cases (x.input == r.input)) [
  | inl e ↦ elim (Bool-cases (ltb_ℤ x.pri r.pri)) [
    | inl l ↦ inl (rw (e, l) refl, eq_of_== x.input r.input e)
    | inr l ↦ inr (inl (rw (e, l) refl))
  ]
  | inr e ↦ inr (inr (rw (e) refl, λ q. let f = ==-of-eq x.input r.input q in cc))
]

insert_at-IsIn :
    (r y : PriorityRequest) (xs : List PriorityRequest)
    → IsIn y (insert_at r xs)
    → (r ≡ y) ⊎ IsIn y xs
unfolding insert_at
insert_at-IsIn r y [] (inl e) = inl e
insert_at-IsIn r y [] (inr h) = absurd h
insert_at-IsIn r y (x ∷ xs) h = elim (insert_at-cases r x xs) [
  | inl (e, q) ↦ elim (subst (IsIn y) e h) [ inl p ↦ inl p | inr p ↦ inr (inr p) ]
  | inr more ↦ elim more [
    | inl e ↦ inr (subst (IsIn y) e h)
    | inr (e, q) ↦ elim (subst (IsIn y) e h) [ inl p ↦ inl p | inr p ↦ inr p ]
  ]
]

insert_at-IsSorted :
    (r : PriorityRequest) (xs : List PriorityRequest)
    → IsSorted xs
    → ((y : PriorityRequest) → IsIn y xs → r.input ≤ y.input)
    → IsSorted (insert_at r xs)
unfolding insert_at
insert_at-IsSorted r [] s h = (λ y i. absurd i, tt)
insert_at-IsSorted r (x ∷ xs) (l, s) h = elim (insert_at-cases r x xs) [
  | inl (e, q) ↦ subst IsSorted (sym e) (λ y i. let a = l y i in omega (arith, q), s)
  | inr more ↦ elim more [
    | inl e ↦ subst IsSorted (sym e) (l, s)
    | inr (e, q) ↦
        let first : r.input < x.input = less (h x (inl refl)) q in
        subst IsSorted (sym e) (
          λ y i. elim i [
            | inl t ↦ subst (λ (k : PriorityRequest). r.input < k.input) t first
            | inr t ↦ let a = l y t in omega arith
          ],
          (l, s),
        )
  ]
]
  where
    less : r.input ≤ x.input → x.input ≢ r.input → r.input < x.input
    less a b = elim (dec_lt r.input x.input) [ yes p ↦ p | no p ↦ absurd (b (omega arith)) ]

-- The request of an input.
abbrev pub request_of : ℕ → List PriorityRequest → Option PriorityRequest
request_of i [] = none
request_of i (x ∷ xs) = let rest = request_of i xs in if x.input == i then some x else rest

-- What an input asks for once it asks for `r` too: an older request of no lower priority stays.
abbrev pub prefer : PriorityRequest → Option PriorityRequest → PriorityRequest
prefer r none = r
prefer r (some x) = if ltb_ℤ x.pri r.pri then r else x

pub request_of-none :
    (i : ℕ) (xs : List PriorityRequest)
    → ((y : PriorityRequest) → IsIn y xs → i < y.input)
    → request_of i xs ≡ none
request_of-none i [] h = refl
request_of-none i (x ∷ xs) h =
    let differ : (x.input == i) ≡ false = let l = h x (inl refl) in ground arith in
    rw (differ) (request_of-none i xs (λ y p. h y (inr p)))

-- The list after `AddRequest`.
abbrev added : PriorityRequest → List PriorityRequest → List PriorityRequest
added r xs = before r.input xs ++ insert_at r (from r.input xs)

abbrev Adds : PriorityRequest → List PriorityRequest → ℕ → Type 0
Adds r xs i =
    request_of i (added r xs)
    ≡ (if r.input == i then some (prefer r (request_of r.input xs)) else request_of i xs)

-- At the insertion point.
insert_at-Adds :
    (r x : PriorityRequest) (xs : List PriorityRequest) (i : ℕ)
    → r.input ≤ x.input
    → ((y : PriorityRequest) → IsIn y xs → x.input < y.input)
    → request_of i (insert_at r (x ∷ xs)) ≡ (
        if r.input == i
        then some (prefer r (request_of r.input (x ∷ xs)))
        else request_of i (x ∷ xs))
unfolding insert_at
insert_at-Adds r x xs i h l = elim (Bool-cases (x.input == r.input)) [
  | inl e ↦ elim (Bool-cases (ltb_ℤ x.pri r.pri)) [
    | inl p ↦ elim (Bool-cases (r.input == i)) [
      | inl q ↦ rw (e, p, q) refl
      | inr q ↦ let other : (x.input == i) ≡ false = ground arith in rw (e, p, q, other) refl
    ]
    | inr p ↦ elim (Bool-cases (r.input == i)) [
      | inl q ↦ let here : (x.input == i) ≡ true = ground arith in rw (e, p, q, here) refl
      | inr q ↦ let other : (x.input == i) ≡ false = ground arith in rw (e, p, q, other) refl
    ]
  ]
  | inr e ↦
      let none_yet : request_of r.input xs ≡ none =
        request_of-none r.input xs (λ y t. let f = l y t in omega arith) in
      rw (e, none_yet) refl
]

add-Adds : (r : PriorityRequest) (xs : List PriorityRequest) (i : ℕ) → IsSorted xs → Adds r xs i
unfolding before from insert_at
add-Adds r [] i s = refl
add-Adds r (x ∷ xs) i (l, s) = elim (Bool-cases (ltb x.input r.input)) [
  | inl b ↦
      let differ : (x.input == r.input) ≡ false = ground arith in
      let rest = add-Adds r xs i s in
      rw (before_below r.input x xs b, from_below r.input x xs b)
        (elim (Bool-cases (x.input == i)) [
          | inl q ↦ let other : (r.input == i) ≡ false = ground arith in rw (q, other) refl
          | inr q ↦ rw (q, differ) rest
        ])
  | inr b ↦
      rw (before_above r.input x xs b, from_above r.input x xs b)
        (insert_at-Adds r x xs i (ground arith) l)
]

-- `AddRequest` on a list with at most one request for each input, in the order of the inputs, keeps
-- it so. The input that asks then has the new request, or its older one where that has no lower
-- priority; every other input has the request that it had, or none as before.
pub add_request-IsSorted :
    (r : PriorityArbiter) (input : ℕ) (label pri : ℤ)
    → IsSorted r.requests
    → IsSorted (add_request r input label pri).requests
      × ((i : ℕ)
          → request_of i (add_request r input label pri).requests ≡ (
              if input == i
              then some (
                  prefer
                    (record { input = input; label = label; pri = pri })
                    (request_of input r.requests))
              else request_of i r.requests))
unfolding add_request
add_request-IsSorted r input label pri s =
    let new : PriorityRequest = record { input = input; label = label; pri = pri } in
    let rest = λ (y : PriorityRequest) (i : IsIn y (from input r.requests)).
      from-IsIn input y r.requests s i in
    (
      IsSorted-append (before input r.requests) (insert_at new (from input r.requests))
          (before-IsSorted input r.requests s)
          (insert_at-IsSorted new (from input r.requests) (from-IsSorted input r.requests s)
            (λ y i. (rest y i).1))
          (λ x y i j. elim (insert_at-IsIn new y (from input r.requests) j) [
            | inl e ↦
                subst (λ (k : PriorityRequest). x.input < k.input) e
                  (before-IsIn input x r.requests i).1
            | inr k ↦
                let a = (before-IsIn input x r.requests i).1 in let b = (rest y k).1 in omega arith
          ]),
      λ i. add-Adds new r.requests i s,
    )
