-- ===== src/BufferPolicy/Private.antt =====
-- `PrivateBufferPolicy` of booksim2/src/buffer_state.cpp: each VC has slots of its own.
use bzsim.Base.{ℕ, ◌+◌, ◌*◌, ℤ, sub_ℕ, Bool, ltb, leb, Outcome, ok, ◌>>=◌, ◌>>◌, error_if}
use bzsim.BufferPolicy.View.{View, occupancy_for}

pub record Private : Type 0 where
  pub vc_buf_size : ℕ

-- `IncVcBufferSize`: two slots for each extra cycle of link latency.
unfoldable pub inc_vc_buf_size : Private → ℕ → Private
inc_vc_buf_size p lat = record p { vc_buf_size = p.vc_buf_size + 2 * lat }

-- `SendingFlit`; the view already counts the flit.
unfoldable pub sending_flit : Private → View → ℕ → Outcome Private
unfolding occupancy_for
sending_flit p v vc = do held ← occupancy_for v vc; error_if (ltb p.vc_buf_size held); ok p

-- `IsFullFor`.
unfoldable pub is_full_for : Private → View → ℕ → Outcome Bool
unfolding occupancy_for
is_full_for p v vc = do held ← occupancy_for v vc; ok (leb p.vc_buf_size held)

-- `AvailableFor`.
unfoldable pub available_for : Private → View → ℕ → Outcome ℤ
unfolding occupancy_for
available_for p v vc = do held ← occupancy_for v vc; ok (sub_ℕ p.vc_buf_size held)

-- `LimitFor`.
unfoldable pub limit_for : Private → ℕ → ℕ
limit_for p vc = p.vc_buf_size
