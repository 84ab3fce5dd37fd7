-- ===== src/Arbiter/Priority/Match.antt =====
-- The match that `Arbitrate` of the priority arbiter finds.
use bzsim.Base.{◌+◌, ◌%◌, ◌≤◌, ◌<◌, ◌≡◌, ap, ◌∙◌, subst, sym, pos, List, ◌∷◌, ok, stop, ◌>>=◌}
use bzsim.Base.Fault.{undefined}
use bzsim.Arbiter.Priority.{PriorityRequest, PriorityArbiter, search, set_match, arbitrate}
use bzsim.Arbiter.Priority.Winner.{IsIn, IsSorted, GivesWay}
use bzsim.Arbiter.Priority.Rounds.{search-Chosen, scan_wrapped-undefined}

-- The request `w` wins in `r`.
pub record Wins (r : PriorityArbiter) (w : PriorityRequest) : Type 0 where
  pub asks : IsIn w r.requests
  pub others : (y : PriorityRequest) → IsIn y r.requests → GivesWay r.rr_ptr r.inputs w y

-- Where some request but the first is not below the pointer, `Arbitrate` succeeds on the requests
-- of distinct inputs in their order. It matches the input of a request to which every other gives
-- way: each has a lower priority, or the same and comes no earlier from the pointer on, round the
-- inputs. The pointer moves behind the match, and nothing else changes.
pub arbitrate-Wins :
    (r : PriorityArbiter) (x y : PriorityRequest) (xs : List PriorityRequest)
    → r.requests ≡ x ∷ xs
    → IsSorted r.requests
    → ((k : PriorityRequest) → IsIn k r.requests → k.input < r.inputs)
    → IsIn y xs
    → r.rr_ptr ≤ y.input
    → (w : PriorityRequest) × (arbitrate r
        ≡ ok (record r { match = pos w.input; rr_ptr = (w.input + 1) % r.inputs }))
      × Wins r w
unfolding arbitrate set_match
arbitrate-Wins r x y xs e s b i h =
    let (best, w, q, c) =
      search-Chosen r.rr_ptr r.inputs x y xs (subst IsSorted e s)
        (λ k p. b k (subst (IsIn k) (sym e) p)) i h in
    (
      w,
      ap (λ o. o >>= λ m. ok (set_match r m.0)) (ap (search r.rr_ptr) e ∙ q ∙ ap ok c.held),
      record {
        asks = subst (IsIn w) (sym e) c.seen;
        others = λ k p. c.first k (subst (IsIn k) e p);
      },
    )

-- Where all requests but the first are below the pointer, the loop of `Arbitrate` reads a request
-- behind the end of the list, which is undefined. A request that is alone is such a case, whatever
-- the pointer.
pub arbitrate_off_the_end :
    (r : PriorityArbiter) (x : PriorityRequest) (xs : List PriorityRequest)
    → r.requests ≡ x ∷ xs
    → ((y : PriorityRequest) → IsIn y xs → y.input < r.rr_ptr)
    → arbitrate r ≡ stop undefined
unfolding arbitrate search
arbitrate_off_the_end r x xs e h =
    ap (λ o. o >>= λ m. ok (set_match r m.0))
      (ap (search r.rr_ptr) e ∙ scan_wrapped-undefined r.rr_ptr _ xs h)
