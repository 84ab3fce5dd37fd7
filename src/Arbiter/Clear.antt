-- ===== src/Arbiter/Clear.antt =====
-- What `Clear` of the base class leaves.
use bzsim.Base.{ℕ, zero, suc, ◌<◌, ◌≡◌, false, arith, count, count-zero}
use bzsim.Arbiter.{Entry, Arbiter, invalidate, clear}

invalidate-valid : (n : ℕ) (f : ℕ → Entry) (i : ℕ) → i < n → (invalidate n f i).valid ≡ false
unfolding invalidate
invalidate-valid zero f i h = absurd (omega arith)
invalidate-valid (suc n) f i h = ground (arith, invalidate-valid n f i)

module _ (a : Arbiter) where
  -- A request vector that `num_reqs` counts is empty after `Clear`.
  pub clear-valid :
      a.num_reqs ≡ count a.size (λ i. (a.request i).valid)
      → (i : ℕ) → i < a.size
      → ((clear a).request i).valid ≡ false
  unfolding clear
  clear-valid c i h = ground (
    arith,
    invalidate-valid a.size a.request i h,
    count-zero a.size (λ j. (a.request j).valid),
    λ (z : a.num_reqs ≡ 0). count-zero a.size (λ j. (a.request j).valid) (omega (arith, c, z)) i h,
  )

  pub size-clear : (clear a).size ≡ a.size
  unfolding clear
  size-clear = ground arith

  pub num_reqs-clear : (clear a).num_reqs ≡ 0
  unfolding clear
  num_reqs-clear = ground arith

  pub best_input-clear : (clear a).best_input ≡ a.best_input
  unfolding clear
  best_input-clear = ground arith
