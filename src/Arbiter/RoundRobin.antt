-- ===== src/Arbiter/RoundRobin.antt =====
-- booksim2/src/arbiters/roundrobin_arb.{hpp,cpp}.
pub mod Order
pub mod Grant
pub mod Winner
pub mod Fair
mod Tests
use bzsim.Base.{
  ℕ, suc, ◌+◌, ◌-◌, ◌%◌, ℤ, pos, negsuc, ltb_ℤ, eqb_ℤ, Bool, not, ◌&&◌, ◌||◌, Option, ltb, ◌==◌,
  if◌then◌else◌, Outcome, ok, ◌>>=◌,
}
use bzsim.Arbiter
use bzsim.Arbiter.{Arbiter, int_min}

-- The base class, and the input that comes first in the next round.
pub record RoundRobin : Type 0 where
  pub base : Arbiter
  pub open base use *
  pub pointer : ℕ

-- The constructor.
unfoldable pub init : ℕ → RoundRobin
unfolding Arbiter.init
init size = record { base = Arbiter.init size; pointer = 0 }

-- `(input - offset + size) % size` at an input from -1 on and an offset below the size, where the
-- sum is not negative.
pub position : ℤ → ℕ → ℕ → ℕ
position (pos i) offset size = (i + size - offset) % size
position (negsuc k) offset size = (size - offset - suc k) % size

-- `Supersedes`.
unfoldable pub supersedes : ℤ → ℤ → ℤ → ℤ → ℕ → ℕ → Bool
supersedes input1 pri1 input2 pri2 offset size =
    ltb_ℤ pri2 pri1
    || (eqb_ℤ pri1 pri2 && ltb (position input1 offset size) (position input2 offset size))

-- The first half of `AddRequest`: note the request if it is the best so far.
pub note : RoundRobin → ℕ → ℤ → RoundRobin
note r input pri =
    if (not (r.request input).valid || ltb_ℤ (r.request input).pri pri)
      && (r.num_reqs == 0 || supersedes (pos input) pri r.best_input r.highest_pri r.pointer r.size)
    then record r { base = record r.base { highest_pri = pri; best_input = pos input } }
    else r

-- `AddRequest`.
unfoldable pub add_request : RoundRobin → ℕ → ℤ → ℤ → Outcome RoundRobin
unfolding note
add_request r input id pri = do
  let noted = note r input pri
  base ← Arbiter.add_request noted.base input id pri
  ok (record noted { base = base })

-- `Arbitrate`.
unfoldable pub arbitrate : RoundRobin → Outcome (RoundRobin × ℤ × Option (ℤ × ℤ))
arbitrate r = do
  let chosen = record r.base { selected = r.best_input }
  (w, out) ← Arbiter.arbitrate chosen
  ok (record r { base = chosen }, w, out)

-- `UpdateState`.
unfoldable pub update_state : RoundRobin → RoundRobin
update_state r = elim r.selected [ pos w ↦ record r { pointer = (w + 1) % r.size } | negsuc k ↦ r ]

-- `Clear`.
unfoldable pub clear : RoundRobin → RoundRobin
clear r = record r {
  base = Arbiter.clear (record r.base { highest_pri = int_min; best_input = negsuc 0 });
}
