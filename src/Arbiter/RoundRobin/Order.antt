-- ===== src/Arbiter/RoundRobin/Order.antt =====
-- The order by which a round-robin arbiter prefers requests.
use bzsim.Base.{ℕ, ◌≤◌, ◌≡◌, ℤ, ◌<ℤ◌, eq_of_eqb_ℤ, ◌⊎◌, true, false, arith}
use bzsim.Arbiter.RoundRobin.{position, supersedes}

-- A request of priority `p` at distance `d` from the pointer comes before one of `q` at `e`, or is
-- level with it.
abbrev pub IsAhead : ℤ → ℕ → ℤ → ℕ → Type 0
IsAhead p d q e = (q <ℤ p) ⊎ ((p ≡ q) × (d ≤ e))

pub IsAhead-trans : (p q r : ℤ) (d e f : ℕ) → IsAhead p d q e → IsAhead q e r f → IsAhead p d r f
IsAhead-trans p q r d e f h k = ground arith

pub supersedes-IsAhead :
    (i j p q : ℤ) (offset size : ℕ)
    → supersedes i p j q offset size ≡ true
    → IsAhead p (position i offset size) q (position j offset size)
unfolding supersedes
supersedes-IsAhead i j p q offset size h = ground (arith, eq_of_eqb_ℤ p q)

pub not-supersedes-IsAhead :
    (i j p q : ℤ) (offset size : ℕ)
    → supersedes i p j q offset size ≡ false
    → IsAhead q (position j offset size) p (position i offset size)
unfolding supersedes
not-supersedes-IsAhead i j p q offset size h = ground (arith, eq_of_eqb_ℤ p q)
