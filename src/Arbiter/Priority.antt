-- ===== src/Arbiter/Priority.antt =====
-- booksim2/src/arbiters/prio_arb.{hpp,cpp}, the arbiter of the event-driven router: a list of
-- requests in the order of their inputs, of which the highest priority wins, and the first from the
-- pointer on among equals. An iterator is the rest of the list.
pub mod Winner
pub mod Rounds
pub mod Match
pub mod Add
pub mod Remove
mod Tests
use bzsim.Base.{
  ℕ, zero, suc, ◌+◌, ◌%◌, ℤ, pos, negsuc, is_negative, ltb_ℤ, Bool, true, false, not, ◌&&◌, ◌||◌,
  List, [], ◌∷◌, ◌++◌, ltb, ◌==◌, if◌then◌else◌, Outcome, ok, stop, ◌>>=◌, ◌>>◌, check,
}
use bzsim.Base.Fault.{assertion, undefined}

-- `sRequest`.
pub record PriorityRequest : Type 0 where
  pub input : ℕ
  pub label : ℤ
  pub pri : ℤ

-- `PriorityArbiter`.
pub record PriorityArbiter : Type 0 where
  pub rr_ptr : ℕ
  pub inputs : ℕ
  pub requests : List PriorityRequest
  pub match : ℤ

-- The constructor, which leaves `match` as it finds it.
unfoldable pub init : ℕ → ℤ → PriorityArbiter
init inputs garbage = record { rr_ptr = 0; inputs = inputs; requests = []; match = garbage }

-- `Clear`.
unfoldable pub clear : PriorityArbiter → PriorityArbiter
clear r = record r { requests = [] }

-- The loops to the first request of an input that is not below `input`: those before, and the rest.
unfoldable pub before : ℕ → List PriorityRequest → List PriorityRequest
before input [] = []
before input (x ∷ xs) = let rest = before input xs in if ltb x.input input then x ∷ rest else []

unfoldable pub from : ℕ → List PriorityRequest → List PriorityRequest
from input [] = []
from input (x ∷ xs) = let rest = from input xs in if ltb x.input input then rest else x ∷ xs

-- What `AddRequest` does at the insertion point: an older request of the input gives way if its
-- priority is lower.
unfoldable pub insert_at : PriorityRequest → List PriorityRequest → List PriorityRequest
insert_at r [] = r ∷ []
insert_at r (x ∷ xs) =
    if x.input == r.input then (if ltb_ℤ x.pri r.pri then r ∷ xs else x ∷ xs) else r ∷ x ∷ xs

-- `AddRequest`.
unfoldable pub add_request : PriorityArbiter → ℕ → ℤ → ℤ → PriorityArbiter
add_request r input label pri = record r {
  requests =
      before input r.requests
      ++ insert_at (record { input = input; label = label; pri = pri }) (from input r.requests);
}

-- `RemoveRequest`: the request at the insertion point, whatever its input.
unfoldable pub remove_at : List PriorityRequest → Outcome (List PriorityRequest)
remove_at [] = stop assertion
remove_at (x ∷ xs) = ok xs

unfoldable pub remove_request : PriorityArbiter → ℕ → Outcome PriorityArbiter
remove_request r input = do
  rest ← remove_at (from input r.requests)
  ok (record r { requests = before input r.requests ++ rest })

-- The best request so far, `max_index` and `max_pri`.
abbrev pub Best : Type 0
Best = ℤ × ℤ

-- The test for a higher priority.
unfoldable pub better : Best → PriorityRequest → Best
better b x = if ltb_ℤ b.1 x.pri || is_negative b.0 then (pos x.input, x.pri) else b

-- The second loop of `Arbitrate` up to the end of the list.
unfoldable pub scan : Best → List PriorityRequest → Best
scan b [] = b
scan b (x ∷ xs) = scan (better b x) xs

-- The same loop once it has wrapped around: its test reads the request at the iterator, also where
-- the iterator is at the end.
unfoldable pub scan_wrapped : ℕ → Best → List PriorityRequest → Outcome Best
scan_wrapped ptr b [] = stop undefined
scan_wrapped ptr b (x ∷ xs) =
    let rest = scan_wrapped ptr (better b x) xs in if ltb x.input ptr then rest else ok b

-- The whole loop. The round in which it wraps around takes the first request without a test.
unfoldable pub search : ℕ → List PriorityRequest → Outcome Best
search ptr [] = ok (negsuc 0, pos 0)
search ptr (x ∷ xs) = scan_wrapped ptr (better (scan (negsuc 0, pos 0) (from ptr (x ∷ xs))) x) xs

-- The new match and the pointer behind it.
unfoldable pub set_match : PriorityArbiter → ℤ → PriorityArbiter
set_match r (pos w) = record r { match = pos w; rr_ptr = (w + 1) % r.inputs }
set_match r (negsuc k) = record r { match = negsuc k }

-- `Arbitrate`.
unfoldable pub arbitrate : PriorityArbiter → Outcome PriorityArbiter
arbitrate r = do (max_index, max_pri) ← search r.rr_ptr r.requests; ok (set_match r max_index)

-- `Update`.
unfoldable pub update_pointer : PriorityArbiter → PriorityArbiter
update_pointer r = record r { rr_ptr = (r.rr_ptr + 1) % r.inputs }
