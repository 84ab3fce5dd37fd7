-- ===== src/Arbiter/Priority/Tests.antt =====
-- Three requests, of which two have the highest priority.
use bzsim.Base.{
  ℕ, ◌+◌, ◌%◌, ◌<◌, ◌≡◌, refl, ap, subst, inl, inr, ℤ, pos, negsuc, [], ◌∷◌, arith, ok, stop, ◌==◌,
  if◌then◌else◌, none, some,
}
use bzsim.Base.Fault.{undefined}
use bzsim.Arbiter.Priority.{
  PriorityRequest, PriorityArbiter, add_request, remove_request, arbitrate,
}
use bzsim.Arbiter.Priority.Winner.{IsIn, IsSorted}
use bzsim.Arbiter.Priority.Match.{Wins, arbitrate-Wins, arbitrate_off_the_end}
use bzsim.Arbiter.Priority.Add.{request_of, prefer, add_request-IsSorted}
use bzsim.Arbiter.Priority.Remove.{remove_request-IsSorted}

abbrev asks : ℕ → ℤ → PriorityRequest
asks input pri = record { input = input; label = pos 0; pri = pri }

abbrev none_yet : PriorityArbiter
none_yet = record { rr_ptr = 1; inputs = 4; requests = []; match = negsuc 0 }

abbrev three : PriorityArbiter
three =
    add_request (add_request (add_request none_yet 3 (pos 0) (pos 5)) 0 (pos 0) (pos 5)) 2 (pos 0)
      (pos 3)

three_requests : three.requests ≡ asks 0 (pos 5) ∷ asks 2 (pos 3) ∷ asks 3 (pos 5) ∷ []
unfolding add_request bzsim.Arbiter.Priority.before bzsim.Arbiter.Priority.from
    bzsim.Arbiter.Priority.insert_at
three_requests = refl

two-IsSorted :
    IsSorted (add_request (add_request none_yet 3 (pos 0) (pos 5)) 0 (pos 0) (pos 5)).requests
two-IsSorted =
    (add_request-IsSorted _ 0 (pos 0) (pos 5)
      (add_request-IsSorted none_yet 3 (pos 0) (pos 5) tt).0).0

add_request-IsSorted_example :
    IsSorted three.requests
    × ((i : ℕ)
        → request_of i three.requests ≡ (
            if 2 == i
            then some (
                prefer (asks 2 (pos 3)) (
                  request_of 2
                    (add_request
                      (add_request none_yet 3 (pos 0) (pos 5))
                      0
                      (pos 0)
                      (pos 5)).requests))
            else request_of i
                (add_request (add_request none_yet 3 (pos 0) (pos 5)) 0 (pos 0) (pos 5)).requests))
add_request-IsSorted_example =
    add_request-IsSorted (add_request (add_request none_yet 3 (pos 0) (pos 5)) 0 (pos 0) (pos 5)) 2
      (pos 0) (pos 3) two-IsSorted

below_four : (k : PriorityRequest) → IsIn k three.requests → k.input < 4
below_four k i = go (subst (IsIn k) three_requests i)
  where
    go : IsIn k (asks 0 (pos 5) ∷ asks 2 (pos 3) ∷ asks 3 (pos 5) ∷ []) → k.input < 4
    go (inl e) = let f = ap (λ (x : PriorityRequest). x.input) e in omega arith
    go (inr (inl e)) = let f = ap (λ (x : PriorityRequest). x.input) e in omega arith
    go (inr (inr (inl e))) = let f = ap (λ (x : PriorityRequest). x.input) e in omega arith
    go (inr (inr (inr h))) = absurd h

three-IsSorted : IsSorted three.requests
three-IsSorted =
    (add_request-IsSorted (add_request (add_request none_yet 3 (pos 0) (pos 5)) 0 (pos 0) (pos 5)) 2
      (pos 0) (pos 3) two-IsSorted).0

third_asks : request_of 2 three.requests ≡ some (asks 2 (pos 3))
unfolding add_request bzsim.Arbiter.Priority.before bzsim.Arbiter.Priority.from
    bzsim.Arbiter.Priority.insert_at
third_asks = refl

remove_request-IsSorted_example :
    (s : PriorityArbiter) × (remove_request three 2 ≡ ok s)
    × IsSorted s.requests
    × ((i : ℕ) → request_of i s.requests ≡ (if 2 == i then none else request_of i three.requests))
remove_request-IsSorted_example =
    remove_request-IsSorted three 2 (asks 2 (pos 3)) three-IsSorted third_asks

arbitrate-Wins_example :
    (w : PriorityRequest) × (arbitrate three
      ≡ ok (record three { match = pos w.input; rr_ptr = (w.input + 1) % three.inputs }))
    × Wins three w
unfolding add_request
arbitrate-Wins_example =
    arbitrate-Wins three (asks 0 (pos 5)) (asks 2 (pos 3)) (asks 2 (pos 3) ∷ asks 3 (pos 5) ∷ [])
      three_requests three-IsSorted (λ k i. below_four k i) (inl refl) (omega arith)

-- Input 3 wins: inputs 3 and 0 have the same priority, and the pointer is at 1.
third_input :
    arbitrate (record none_yet { requests = asks 0 (pos 5) ∷ asks 2 (pos 3) ∷ asks 3 (pos 5) ∷ [] })
    ≡ ok (record {
      rr_ptr = 0;
      inputs = 4;
      requests = asks 0 (pos 5) ∷ asks 2 (pos 3) ∷ asks 3 (pos 5) ∷ [];
      match = pos 3;
    })
unfolding arbitrate bzsim.Arbiter.Priority.search bzsim.Arbiter.Priority.scan_wrapped
    bzsim.Arbiter.Priority.scan bzsim.Arbiter.Priority.better bzsim.Arbiter.Priority.from
    bzsim.Arbiter.Priority.set_match
third_input = refl

arbitrate_off_the_end_example :
    arbitrate (record none_yet { requests = asks 2 (pos 3) ∷ [] }) ≡ stop undefined
arbitrate_off_the_end_example =
    arbitrate_off_the_end (record none_yet { requests = asks 2 (pos 3) ∷ [] }) (asks 2 (pos 3)) []
      refl (λ y i. absurd i)
