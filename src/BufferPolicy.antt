-- ===== src/BufferPolicy.antt =====
-- The buffer policies of booksim2/src/buffer_state.{hpp,cpp}: one type for the class hierarchy, and
-- the virtual calls by clauses.
pub mod View
pub mod Private
pub mod Shared
pub mod Limited
pub mod Feedback
pub mod Contract
mod Tests
use bzsim.Base.{ℕ, ℤ, Bool, Outcome, ok, stop, error, ◌>>=◌}
use bzsim.Flit.{Flit}

-- The classes that derive from `BufferPolicy`.
pub data Policy : Type 0 where
  private : Private.Private → Policy
  shared : Shared.Shared → Policy
  limited dynamic shifting : Limited.Limited → Policy
  feedback : Feedback.Feedback → Policy
  simple_feedback : Feedback.SimpleFeedback → Policy

-- `SetMinLatency`.
unfoldable pub set_min_latency : Policy → ℤ → Policy
set_min_latency (feedback p) n = feedback (Feedback.set_min_latency p n)
set_min_latency (simple_feedback p) n =
    simple_feedback (record p { feedback = Feedback.set_min_latency p.feedback n })
set_min_latency p n = p

-- `TakeBuffer`.
unfoldable pub take_buffer : Policy → ℕ → Outcome Policy
take_buffer (limited l) vc = Limited.take_buffer l >>= λ m. ok (limited m)
take_buffer (dynamic l) vc = Limited.take_buffer_dynamic l >>= λ m. ok (dynamic m)
take_buffer (shifting l) vc = Limited.take_buffer_shifting l >>= λ m. ok (shifting m)
take_buffer p vc = ok p

-- `SendingFlit`.
unfoldable pub sending_flit : Policy → View.View → ℕ → Flit → Outcome Policy
sending_flit (private p) v now f = Private.sending_flit p v f.vc >>= λ q. ok (private q)
sending_flit (shared s) v now f = Shared.sending_flit s f >>= λ t. ok (shared t)
sending_flit (limited l) v now f = Limited.sending_flit l f >>= λ m. ok (limited m)
sending_flit (dynamic l) v now f = Limited.sending_flit_dynamic l f >>= λ m. ok (dynamic m)
sending_flit (shifting l) v now f = Limited.sending_flit_shifting l f >>= λ m. ok (shifting m)
sending_flit (feedback p) v now f = Feedback.sending_flit p now f >>= λ q. ok (feedback q)
sending_flit (simple_feedback p) v now f =
    Feedback.sending_flit_simple p v now f >>= λ q. ok (simple_feedback q)

-- `FreeSlotFor`.
unfoldable pub free_slot_for : Policy → View.View → ℕ → ℕ → Outcome Policy
free_slot_for (private p) v now vc = ok (private p)
free_slot_for (shared s) v now vc = Shared.free_slot_for s v vc >>= λ t. ok (shared t)
free_slot_for (limited l) v now vc =
    Shared.free_slot_for l.base v vc >>= λ t. ok (limited (record l { base = t }))
free_slot_for (dynamic l) v now vc =
    Shared.free_slot_for l.base v vc >>= λ t. ok (dynamic (record l { base = t }))
free_slot_for (shifting l) v now vc =
    Shared.free_slot_for l.base v vc >>= λ t. ok (shifting (record l { base = t }))
free_slot_for (feedback p) v now vc = Feedback.free_slot_for p v now vc >>= λ q. ok (feedback q)
free_slot_for (simple_feedback p) v now vc =
    Feedback.free_slot_for_simple p v now vc >>= λ q. ok (simple_feedback q)

-- `IsFullFor`.
unfoldable pub is_full_for : Policy → View.View → ℕ → ℕ → Outcome Bool
is_full_for (private p) v now vc = Private.is_full_for p v vc
is_full_for (shared s) v now vc = Shared.is_full_for s vc
is_full_for (limited l) v now vc = Limited.is_full_for l v vc
is_full_for (dynamic l) v now vc = Limited.is_full_for l v vc
is_full_for (shifting l) v now vc = Limited.is_full_for l v vc
is_full_for (feedback p) v now vc = Feedback.is_full_for p v now vc
is_full_for (simple_feedback p) v now vc = Feedback.is_full_for p.feedback v now vc

-- `AvailableFor`.
unfoldable pub available_for : Policy → View.View → ℕ → ℕ → Outcome ℤ
available_for (private p) v now vc = Private.available_for p v vc
available_for (shared s) v now vc = Shared.available_for s vc
available_for (limited l) v now vc = Limited.available_for l v vc
available_for (dynamic l) v now vc = Limited.available_for l v vc
available_for (shifting l) v now vc = Limited.available_for l v vc
available_for (feedback p) v now vc = Feedback.available_for p v now vc
available_for (simple_feedback p) v now vc = Feedback.available_for p.feedback v now vc

-- `LimitFor`.
unfoldable pub limit_for : Policy → ℕ → ℕ → Outcome ℕ
limit_for (private p) now vc = ok (Private.limit_for p vc)
limit_for (shared s) now vc = Shared.limit_for s vc
limit_for (limited l) now vc = Limited.limit_for l vc
limit_for (dynamic l) now vc = Limited.limit_for l vc
limit_for (shifting l) now vc = Limited.limit_for l vc
limit_for (feedback p) now vc = Feedback.limit_for p now vc
limit_for (simple_feedback p) now vc = Feedback.limit_for p.feedback now vc

-- `IncVcBufferSize`: only the private policy is designed for it.
unfoldable pub inc_vc_buf_size : Policy → ℕ → Outcome Policy
inc_vc_buf_size (private p) lat = ok (private (Private.inc_vc_buf_size p lat))
inc_vc_buf_size p lat = stop error
