-- ===== src/Arbiter/Matrix/Tests.antt =====
-- A matrix arbiter of two inputs, both of which ask, and its theorems there.
use bzsim.Base.{ℕ, ◌<◌, ◌≡◌, ◌≢◌, refl, pos, negsuc, true, some, ok, arith}
use bzsim.Arbiter
use bzsim.Arbiter.Matrix.{Matrix, init, update_state, arbitrate}
use bzsim.Arbiter.Matrix.Order.{IsOrder, init-IsOrder, update_state-IsOrder}
use bzsim.Arbiter.Matrix.Winner.{IsPreferred, arbitrate-IsPreferred}

abbrev both : Matrix
unfolding init
both = record {
  base = record {
    request = λ _. record { valid = true; id = pos 7; pri = pos 1 };
    size = 2;
    selected = pos 1;
    highest_pri = Arbiter.int_min;
    best_input = negsuc 0;
    num_reqs = 2;
  };
  matrix = (init 2).matrix;
  last_req = pos 1;
}

both-IsOrder : IsOrder 2 (init 2).matrix
both-IsOrder = init-IsOrder 2

update_state-IsOrder_example :
    IsOrder 2 (update_state both).matrix
    × ((i : ℕ) → i < 2 → i ≢ 1 → (update_state both).matrix i 1 ≡ true)
    × ((i j : ℕ) → i ≢ 1 → j ≢ 1 → (update_state both).matrix i j ≡ both.matrix i j)
unfolding both init
update_state-IsOrder_example = update_state-IsOrder both 1 refl (omega arith) both-IsOrder

arbitrate-IsPreferred_example :
    (w : ℕ) × (arbitrate both
      ≡ ok (
        record both { base = record both.base { selected = pos w } },
        pos w,
        some (pos 7, pos 1),
      ))
    × IsPreferred both w
unfolding both init
arbitrate-IsPreferred_example =
    arbitrate-IsPreferred both 0 both-IsOrder (omega arith) (omega arith) refl
