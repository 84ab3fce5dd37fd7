-- ===== src/Arbiter/Matrix.antt =====
-- booksim2/src/arbiters/matrix_arb.{hpp,cpp}. Row `i` of the matrix says over which inputs `i` has
-- priority.
pub mod Order
pub mod Top
pub mod Winner
mod Tests
use bzsim.Base.{
  ℕ, zero, suc, ℤ, pos, negsuc, ltb_ℤ, eqb_ℤ, Bool, true, false, not, ◌&&◌, ◌||◌, Option, none,
  some, ltb, ◌==◌, if◌then◌else◌, update, Outcome, ok, ◌>>=◌,
}
use bzsim.Arbiter
use bzsim.Arbiter.{Arbiter}

-- The base class, the matrix and the last input that asked, -1 for none.
pub record Matrix : Type 0 where
  pub base : Arbiter
  pub open base use *
  pub matrix : ℕ → ℕ → Bool
  pub last_req : ℤ

-- The constructor: at first a higher input has priority over a lower one.
unfoldable pub init : ℕ → Matrix
unfolding Arbiter.init
init size = record {
  base = Arbiter.init size;
  matrix = λ i j. ltb i size && ltb j i;
  last_req = negsuc 0;
}

-- The loop of `UpdateState` over the first `n` inputs: the winner gives way to them.
unfoldable pub demote : ℕ → ℕ → (ℕ → ℕ → Bool) → ℕ → ℕ → Bool
demote zero w m = m
demote (suc n) w m =
    let k = demote n w m in
    if w == n
    then k
    else (let l = update k w (update (k w) n false) in update l n (update (l n) w true))

-- `UpdateState`.
unfoldable pub update_state : Matrix → Matrix
update_state r = elim r.selected [
  | pos w ↦ record r { matrix = demote r.size w r.matrix }
  | negsuc k ↦ r
]

-- `AddRequest`.
unfoldable pub add_request : Matrix → ℕ → ℤ → ℤ → Outcome Matrix
add_request r input id pri = do
  base ← Arbiter.add_request r.base input id pri
  ok (record r { last_req = pos input; base = base })

-- The test of the inner loop of `Arbitrate`: input `i` keeps `input` from being granted.
unfoldable pub blocks : Matrix → ℕ → ℕ → Bool
blocks r input i =
    (r.request i).valid
    && ((eqb_ℤ (r.request i).pri (r.request input).pri && r.matrix i input)
        || ltb_ℤ (r.request input).pri (r.request i).pri)

-- The inner loop over the first `n` inputs.
unfoldable pub blocked : ℕ → Matrix → ℕ → Bool
blocked zero r input = false
blocked (suc n) r input = blocked n r input || blocks r input n

-- The outer loop over the first `n` inputs: the first that is granted.
unfoldable pub first_granted : ℕ → Matrix → ℤ
first_granted zero r = negsuc 0
first_granted (suc n) r = elim (first_granted n r) [
  | pos w ↦ pos w
  | negsuc k ↦ if (r.request n).valid && not (blocked r.size r n) then pos n else negsuc 0
]

-- `Arbitrate`.
unfoldable pub arbitrate : Matrix → Outcome (Matrix × ℤ × Option (ℤ × ℤ))
arbitrate r = do
  let w = if ltb r.num_reqs 2 then r.last_req else first_granted r.size r
  let chosen = record r.base { selected = w }
  (s, out) ← Arbiter.arbitrate chosen
  ok (record r { base = chosen }, s, out)

-- `Clear`.
unfoldable pub clear : Matrix → Matrix
clear r = record r { last_req = negsuc 0; base = Arbiter.clear r.base }
