-- ===== src/BufferPolicy/View.antt =====
-- What a buffer policy asks of the `BufferState` that owns it (booksim2/src/buffer_state.hpp).
use bzsim.Base.{ℕ, ℤ, is_negative, Bool, ltb, ◌==◌, Outcome, ok, ◌>>◌, check}

pub record View : Type 0 where
  pub vcs : ℕ
  pub vc_occupancy : ℕ → ℕ
  pub in_use_by : ℕ → ℤ

-- `OccupancyFor`.
unfoldable pub occupancy_for : View → ℕ → Outcome ℕ
occupancy_for v vc = do check (ltb vc v.vcs); ok (v.vc_occupancy vc)

-- `IsEmptyFor`.
unfoldable pub is_empty_for : View → ℕ → Outcome Bool
is_empty_for v vc = do check (ltb vc v.vcs); ok (v.vc_occupancy vc == 0)

-- `IsAvailableFor`.
unfoldable pub is_available_for : View → ℕ → Outcome Bool
is_available_for v vc = do check (ltb vc v.vcs); ok (is_negative (v.in_use_by vc))
