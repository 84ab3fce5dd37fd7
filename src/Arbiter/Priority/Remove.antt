-- ===== src/Arbiter/Priority/Remove.antt =====
-- `RemoveRequest` of the priority arbiter, for an input that has a request.
use bzsim.Base.{
  ℕ, ◌<◌, ◌≡◌, refl, sym, ◌∙◌, subst, inl, inr, List, [], ◌∷◌, ◌++◌, ltb, ◌==◌, if◌then◌else◌,
  Bool-cases, none, some, false, ok, arith,
}
use bzsim.Arbiter.Priority.{
  PriorityRequest, PriorityArbiter, before, from, remove_at, remove_request,
}
use bzsim.Arbiter.Priority.Winner.{IsIn, IsSorted}
use bzsim.Arbiter.Priority.Rounds.{
  before-IsIn, before-IsSorted, from-IsIn, before_below, before_above, from_below, from_above,
}
use bzsim.Arbiter.Priority.Add.{request_of, request_of-none, IsSorted-append}

-- What is removed from the rest of the list, and what then is each input's request.
record Removed (input : ℕ) (xs rest : List PriorityRequest) : Type 0 where
  runs : remove_at (from input xs) ≡ ok rest
  kept : (y : PriorityRequest) → IsIn y rest → IsIn y (from input xs)
  order : IsSorted rest
  without :
      (i : ℕ)
      → request_of i (before input xs ++ rest) ≡ (if input == i then none else request_of i xs)

request_of-skip :
    (i : ℕ) (y : PriorityRequest) (ys : List PriorityRequest)
    → (y.input == i) ≡ false
    → request_of i (y ∷ ys) ≡ request_of i ys
request_of-skip i y ys e = rw (e) refl

remove_at-Removed :
    (input : ℕ) (x : PriorityRequest) (xs : List PriorityRequest)
    → IsSorted xs
    → request_of input xs ≡ some x
    → (rest : List PriorityRequest) × Removed input xs rest
unfolding remove_at
remove_at-Removed input x [] s h = cc
remove_at-Removed input x (y ∷ ys) (l, s) h = elim (Bool-cases (ltb y.input input)) [
  | inl b ↦
      let differ : (y.input == input) ≡ false = ground arith in
      let (rest, q) =
        remove_at-Removed input x ys s (sym (request_of-skip input y ys differ) ∙ h) in
      (
        rest,
        record {
          runs = rw (from_below input y ys b) q.runs;
          kept = λ z i. rw (from_below input y ys b) (q.kept z i);
          order = q.order;
          without = λ i. rw (before_below input y ys b) (elim (Bool-cases (y.input == i)) [
            | inl e ↦ let other : (input == i) ≡ false = ground arith in rw (e, other) refl
            | inr e ↦ rw (e) (q.without i)
          ]);
        },
      )
  | inr b ↦ elim (Bool-cases (y.input == input)) [
    | inl e ↦ (
      ys,
      record {
        runs = rw (from_above input y ys b) refl;
        kept = λ z i. rw (from_above input y ys b) (inr i);
        order = s;
        without = λ i. rw (before_above input y ys b) (elim (Bool-cases (input == i)) [
          | inl q ↦ rw (q) (request_of-none i ys (λ z t. let f = l z t in ground arith))
          | inr q ↦ let other : (y.input == i) ≡ false = ground arith in rw (q, other) refl
        ]);
      },
    )
    | inr e ↦
        let none_yet : request_of input (y ∷ ys) ≡ none = request_of-none input (y ∷ ys) (λ z t.
          elim t [
            | inl q ↦ subst (λ (k : PriorityRequest). input < k.input) q (ground arith)
            | inr u ↦ let f = l z u in ground arith
          ]) in
        cc (none_yet, h)
  ]
]

-- Where an input has a request on a list with at most one request for each input, in the order of
-- the inputs, `RemoveRequest` succeeds and keeps it so. The input then has no request; every other
-- input has the request that it had, or none as before.
pub remove_request-IsSorted :
    (r : PriorityArbiter) (input : ℕ) (x : PriorityRequest)
    → IsSorted r.requests
    → request_of input r.requests ≡ some x
    → (s : PriorityArbiter) × (remove_request r input ≡ ok s)
      × IsSorted s.requests
      × ((i : ℕ) → request_of i s.requests ≡ (if input == i then none else request_of i r.requests))
unfolding remove_request
remove_request-IsSorted r input x s h =
    let (rest, q) = remove_at-Removed input x r.requests s h in
    (
      record r { requests = before input r.requests ++ rest },
      rw (q.runs) refl,
      IsSorted-append (before input r.requests) rest (before-IsSorted input r.requests s) q.order
          (λ y z i j.
            let a = (before-IsIn input y r.requests i).1 in
            let b = (from-IsIn input z r.requests s (q.kept z j)).1 in omega arith),
      q.without,
    )
