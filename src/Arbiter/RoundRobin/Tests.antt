-- ===== src/Arbiter/RoundRobin/Tests.antt =====
-- Runs of a round-robin arbiter over two inputs, and its theorems at these.
use bzsim.Base.{◌<◌, ◌≡◌, refl, ℤ, pos, negsuc, Option, some, ok, arith, update, total, true}
use bzsim.Arbiter
use bzsim.Arbiter.RoundRobin.{
  RoundRobin, init, position, supersedes, add_request, arbitrate, clear, update_state,
}
use bzsim.Arbiter.RoundRobin.Winner.{IsKept, chosen, Grants}
use bzsim.Arbiter.RoundRobin.Fair.{
  arbitrate-Grants, done, more, Loses, none_yet, again, no_starvation,
}

abbrev fresh : RoundRobin
unfolding init
fresh = init 2

fresh-IsKept : IsKept fresh
unfolding init total
fresh-IsKept = record { pointer_in = omega arith; counted = refl }

-- `fresh` after `AddRequest(0, 7, 1)`.
abbrev one : RoundRobin
one = record {
  base = record {
    request = update (λ _. Arbiter.no_entry) 0 (record { valid = true; id = pos 7; pri = pos 1 });
    size = 2;
    selected = negsuc 0;
    highest_pri = pos 1;
    best_input = pos 0;
    num_reqs = 1;
  };
  pointer = 0;
}

-- The same after `AddRequest(1, 8, 1)`: level in priority, behind in position.
abbrev both : RoundRobin
both = record one {
  base = record one.base {
    request = update one.request 1 (record { valid = true; id = pos 8; pri = pos 1 });
    num_reqs = 2;
  };
}

add_one : add_request fresh 0 (pos 7) (pos 1) ≡ ok one
unfolding add_request Arbiter.add_request init supersedes position
add_one = refl

add_both : add_request one 1 (pos 8) (pos 1) ≡ ok both
unfolding add_request Arbiter.add_request supersedes position
add_both = refl

arbitrate-Grants_example :
    (w : ℤ) × (out : Option (ℤ × ℤ)) × (arbitrate both
      ≡ ok (record both { base = record both.base { selected = w } }, w, out))
    × Grants both w out
unfolding clear Arbiter.clear init
arbitrate-Grants_example =
    arbitrate-Grants {r = fresh} fresh-IsKept
      (more 1 (pos 8) (pos 1) (more 0 (pos 7) (pos 1) done add_one) add_both)

-- Input 1 loses the first round.
first_round : Loses 1 fresh (update_state (chosen both))
unfolding clear Arbiter.clear arbitrate Arbiter.arbitrate init
first_round = record {
  asked = both;
  adds = more 1 (pos 8) (pos 1) (more 0 (pos 7) (pos 1) done add_one) add_both;
  asks = refl;
  top = λ j h v. ground arith;
  granted = chosen both;
  w = 0;
  out = some (pos 7, pos 1);
  grants = refl;
  other = λ e. omega arith;
  updated = refl;
}

no_starvation_example : 1 < 2
unfolding init
no_starvation_example = no_starvation fresh-IsKept (omega arith) (again none_yet first_round)
