-- ===== src/BufferState.antt =====
-- `BufferState` of booksim2/src/buffer_state.{hpp,cpp}: what a router knows of the buffer at the far
-- end of a channel. The sender counts flits up when it sends and down when credits come back.
-- TRACK_BUFFERS is off.
pub mod Credits
pub mod Protocol
pub mod Latency
mod Tests
use bzsim.Base.{
  to_int, ℕ, zero, suc, ◌+◌, ◌*◌, ℤ, pos, negsuc, is_negative, Bool, true, false, not, ◌&&◌, ltb,
  leb, ◌==◌, if◌then◌else◌, update, List, [], ◌∷◌, Outcome, ok, ◌>>=◌, ◌>>◌, check, error_if,
}
use bzsim.Flit.{Flit}
use bzsim.BufferPolicy
use bzsim.BufferPolicy.{Policy}
use bzsim.BufferPolicy.View.{View, occupancy_for}
use bzsim.BufferPolicy.Shared.{decrement}

-- The fields; those that the policy asks for stand in the view. A user of -1 is none.
pub record BufferState : Type 0 where
  pub view : View
  pub open view use *
  pub wait_for_tail_credit : Bool
  pub size : ℕ
  pub occupancy : ℕ
  pub buffer_policy : Policy
  pub tail_sent : ℕ → Bool
  pub last_id : ℕ → ℤ
  pub last_pid : ℕ → ℤ

-- `_size` from the configuration: `buf_size`, unless that is negative.
unfoldable pub config_size : ℤ → ℕ → ℕ → ℕ
config_size (pos n) vcs vc_buf_size = n
config_size (negsuc n) vcs vc_buf_size = vcs * vc_buf_size

-- The constructor.
unfoldable pub init : ℤ → ℕ → ℕ → Bool → Policy → BufferState
unfolding config_size
init buf_size vcs vc_buf_size wait policy = record {
  view = record { vcs = vcs; vc_occupancy = λ _. 0; in_use_by = λ _. negsuc 0 };
  wait_for_tail_credit = wait;
  size = config_size buf_size vcs vc_buf_size;
  occupancy = 0;
  buffer_policy = policy;
  tail_sent = λ _. false;
  last_id = λ _. negsuc 0;
  last_pid = λ _. negsuc 0;
}

-- `_in_use_by[vc] = -1`, after the assertion that the VC is in use.
unfoldable pub end_use : BufferState → ℕ → Outcome BufferState
end_use b vc = do
  check (not (is_negative (b.in_use_by vc)))
  ok (record b { view = record b.view { in_use_by = update b.in_use_by vc (negsuc 0) } })

-- The counters of `ProcessCredit` for one VC.
unfoldable pub count_credit : BufferState → ℕ → Outcome BufferState
count_credit b vc = do
  check (ltb vc b.vcs)
  error_if (b.wait_for_tail_credit && is_negative (b.in_use_by vc))
  n ← decrement b.occupancy
  k ← decrement (b.vc_occupancy vc)
  ok (record b {
    occupancy = n;
    view = record b.view { vc_occupancy = update b.vc_occupancy vc k };
  })

-- The body of the loop of `ProcessCredit`.
unfoldable pub credit_vc : BufferState → ℕ → ℕ → Outcome BufferState
credit_vc b now vc = do
  c ← count_credit b vc
  d ←
      if (c.wait_for_tail_credit && c.vc_occupancy vc == 0 && c.tail_sent vc)
      then end_use c vc
      else ok c
  p ← BufferPolicy.free_slot_for d.buffer_policy d.view now vc
  ok (record d { buffer_policy = p })

-- `ProcessCredit`: the list is the set `vc` of the credit, in order.
unfoldable pub process_credit : BufferState → ℕ → List ℕ → Outcome BufferState
process_credit b now [] = ok b
process_credit b now (vc ∷ vcs) = do c ← credit_vc b now vc; process_credit c now vcs

-- The counters of `SendingFlit`.
unfoldable pub count_flit : BufferState → Flit → Outcome BufferState
count_flit b f = do
  check (ltb f.vc b.vcs)
  error_if (ltb b.size (b.occupancy + 1))
  ok (record b {
    occupancy = b.occupancy + 1;
    view = record b.view { vc_occupancy = update b.vc_occupancy f.vc (b.vc_occupancy f.vc + 1) };
  })

-- The branch of `SendingFlit` for a tail flit.
unfoldable pub sent_tail : BufferState → ℕ → Outcome BufferState
sent_tail b vc =
    let c = record b { tail_sent = update b.tail_sent vc true } in
    if b.wait_for_tail_credit then ok c else end_use c vc

-- `SendingFlit`.
unfoldable pub sending_flit : BufferState → ℕ → Flit → Outcome BufferState
sending_flit b now f = do
  c ← count_flit b f
  p ← BufferPolicy.sending_flit c.buffer_policy c.view now f
  let d = record c { buffer_policy = p }
  e ← if f.tail then sent_tail d f.vc else ok d
  ok (record e {
    last_id = update e.last_id f.vc (to_int f.id);
    last_pid = update e.last_pid f.vc (to_int f.pid);
  })

-- `TakeBuffer`.
unfoldable pub take_buffer : BufferState → ℕ → ℤ → Outcome BufferState
take_buffer b vc tag = do
  check (ltb vc b.vcs)
  error_if (not (is_negative (b.in_use_by vc)))
  p ← BufferPolicy.take_buffer b.buffer_policy vc
  ok (record b {
    view = record b.view { in_use_by = update b.in_use_by vc tag };
    tail_sent = update b.tail_sent vc false;
    buffer_policy = p;
  })

-- `IsFull`.
unfoldable pub is_full : BufferState → Outcome Bool
is_full b = do check (leb b.occupancy b.size); ok (b.occupancy == b.size)

-- `IsFullFor`, `AvailableFor` and `LimitFor`.
unfoldable pub is_full_for : BufferState → ℕ → ℕ → Outcome Bool
is_full_for b now vc = BufferPolicy.is_full_for b.buffer_policy b.view now vc

unfoldable pub available_for : BufferState → ℕ → ℕ → Outcome ℤ
available_for b now vc = BufferPolicy.available_for b.buffer_policy b.view now vc

unfoldable pub limit_for : BufferState → ℕ → ℕ → Outcome ℕ
limit_for b now vc = BufferPolicy.limit_for b.buffer_policy now vc

-- `IncVcBufferSize`.
unfoldable pub inc_vc_buf_size : BufferState → ℕ → Outcome BufferState
inc_vc_buf_size b lat = do
  p ← BufferPolicy.inc_vc_buf_size b.buffer_policy lat
  ok (record b { buffer_policy = p })

-- `SetMinLatency`.
unfoldable pub set_min_latency : BufferState → ℤ → BufferState
set_min_latency b n = record b { buffer_policy = BufferPolicy.set_min_latency b.buffer_policy n }
