-- ===== src/BufferPolicy/Limited.antt =====
-- `LimitedSharedBufferPolicy`, `DynamicLimitedSharedBufferPolicy` and
-- `ShiftingDynamicLimitedSharedBufferPolicy` of booksim2/src/buffer_state.cpp: the shared policy
-- with a limit on the slots that one VC may hold.
pub mod Limits
pub mod Flow
use bzsim.Base.{
  ℕ, zero, suc, ◌+◌, ◌-◌, ◌/◌, ℤ, sub_ℕ, min_ℤ, Bool, true, false, not, ◌&&◌, ltb, leb, ◌==◌,
  if◌then◌else◌, min, Outcome, ok, ◌>>=◌, ◌>>◌, check, error_if,
}
use bzsim.Flit.{Flit}
use bzsim.BufferPolicy.View.{View, occupancy_for}
use bzsim.BufferPolicy.Shared
use bzsim.BufferPolicy.Shared.{Shared, decrement}

-- The fields that `LimitedSharedBufferPolicy` adds.
pub record Limited : Type 0 where
  pub base : Shared
  pub open base use *
  pub vcs : ℕ
  pub active_vcs : ℕ
  pub max_held_slots : ℕ

-- `LimitedSharedBufferPolicy::TakeBuffer`.
unfoldable pub take_buffer : Limited → Outcome Limited
take_buffer l = do
  error_if (ltb l.vcs (l.active_vcs + 1))
  ok (record l { active_vcs = l.active_vcs + 1 })

-- The end of `LimitedSharedBufferPolicy::SendingFlit`: a tail flit ends the VC's packet.
end_packet : Limited → Bool → Outcome Limited
end_packet l true = do n ← decrement l.active_vcs; ok (record l { active_vcs = n })
end_packet l false = ok l

-- `LimitedSharedBufferPolicy::SendingFlit`.
unfoldable pub sending_flit : Limited → Flit → Outcome Limited
unfolding end_packet
sending_flit l f = do s ← Shared.sending_flit l.base f; end_packet (record l { base = s }) f.tail

-- `OccupancyFor(vc) >= _max_held_slots`.
at_limit : Limited → View → ℕ → Outcome Bool
at_limit l v vc = do held ← occupancy_for v vc; ok (leb l.max_held_slots held)

-- `LimitedSharedBufferPolicy::IsFullFor`.
unfoldable pub is_full_for : Limited → View → ℕ → Outcome Bool
unfolding at_limit
is_full_for l v vc = do
  full ← Shared.is_full_for l.base vc
  if full then ok true else at_limit l v vc

-- `LimitedSharedBufferPolicy::AvailableFor`.
unfoldable pub available_for : Limited → View → ℕ → Outcome ℤ
available_for l v vc = do
  n ← Shared.available_for l.base vc
  held ← occupancy_for v vc
  ok (min_ℤ n (sub_ℕ l.max_held_slots held))

-- `LimitedSharedBufferPolicy::LimitFor`.
unfoldable pub limit_for : Limited → ℕ → Outcome ℕ
limit_for l vc = do n ← Shared.limit_for l.base vc; ok (min n l.max_held_slots)

-- `assert(_max_held_slots > 0)`, where both dynamic policies end.
check_limit : Limited → Outcome Limited
check_limit l = do check (ltb 0 l.max_held_slots); ok l

-- `DynamicLimitedSharedBufferPolicy`: an equal share for each active VC.
pub divide : Limited → Limited
divide l = record l { max_held_slots = l.buf_size / l.active_vcs }

-- `DynamicLimitedSharedBufferPolicy::TakeBuffer`.
unfoldable pub take_buffer_dynamic : Limited → Outcome Limited
unfolding check_limit divide
take_buffer_dynamic l = do m ← take_buffer l; check (ltb 0 m.active_vcs); check_limit (divide m)

-- `DynamicLimitedSharedBufferPolicy::SendingFlit`.
unfoldable pub sending_flit_dynamic : Limited → Flit → Outcome Limited
unfolding check_limit divide
sending_flit_dynamic l f = do
  m ← sending_flit l f
  check_limit (if (f.tail && ltb 0 m.active_vcs) then divide m else m)

-- `while(i) { _max_held_slots >>= 1; i >>= 1; }` on fuel. `i` halves, so `i` rounds are enough.
pub halve : ℕ → ℕ → ℕ → ℕ
halve zero i held = held
halve (suc fuel) i held = let rest = halve fuel (i / 2) (held / 2) in if i == 0 then held else rest

-- The loop of `ShiftingDynamicLimitedSharedBufferPolicy` from `i = _active_vcs - 1`.
pub shift : Limited → Limited
unfolding halve
shift l = record l { max_held_slots = halve (l.active_vcs - 1) (l.active_vcs - 1) l.buf_size }

-- `ShiftingDynamicLimitedSharedBufferPolicy::TakeBuffer`.
unfoldable pub take_buffer_shifting : Limited → Outcome Limited
unfolding check_limit shift
take_buffer_shifting l = do m ← take_buffer l; check (ltb 0 m.active_vcs); check_limit (shift m)

-- `ShiftingDynamicLimitedSharedBufferPolicy::SendingFlit`.
unfoldable pub sending_flit_shifting : Limited → Flit → Outcome Limited
unfolding check_limit shift
sending_flit_shifting l f = do
  m ← sending_flit l f
  check_limit (if (f.tail && ltb 0 m.active_vcs) then shift m else m)
