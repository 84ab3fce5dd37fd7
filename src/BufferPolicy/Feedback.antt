-- ===== src/BufferPolicy/Feedback.antt =====
-- `FeedbackSharedBufferPolicy` and `SimpleFeedbackSharedBufferPolicy` of
-- booksim2/src/buffer_state.cpp: the shared policy with a limit for each VC that follows the
-- round-trip time of its flits. `now` is GetSimTime(), which never runs backwards, so a
-- difference of two times is not negative. A queue has its front first.
pub mod Credits
use bzsim.Base.{
  ℕ, zero, suc, ◌+◌, ◌-◌, ◌*◌, ◌/◌, ◌^◌, ℤ, pos, negsuc, pos_part, neg_part, is_negative, sub_ℕ,
  min_ℤ, Bool, true, not, ltb, leb, ◌==◌, if◌then◌else◌, update, min, max, List, [], ◌∷◌, ◌++◌,
  Outcome, ok, stop, assertion, ◌>>=◌, ◌>>◌, check,
}
use bzsim.Flit.{Flit}
use bzsim.BufferPolicy.View.{View, occupancy_for}
use bzsim.BufferPolicy.Shared
use bzsim.BufferPolicy.Shared.{Shared}

-- The fields that `FeedbackSharedBufferPolicy` adds. `total_mapped_size` is the sum of the limits,
-- and so never negative; a `round_trip_time` of -1 is none yet.
pub record Feedback : Type 0 where
  pub base : Shared
  pub open base use *
  pub occupancy_limit : ℕ → ℕ
  pub round_trip_time : ℕ → ℤ
  pub flit_sent_time : ℕ → List ℕ
  pub min_latency : ℤ
  pub total_mapped_size : ℕ
  pub aging_scale : ℕ
  pub offset : ℤ

-- `SetMinLatency`.
unfoldable pub set_min_latency : Feedback → ℤ → Feedback
set_min_latency p min_latency = record p { min_latency = min_latency }

-- `SendingFlit`.
unfoldable pub sending_flit : Feedback → ℕ → Flit → Outcome Feedback
sending_flit p now f = do
  s ← Shared.sending_flit p.base f
  ok (record p {
    base = s;
    flit_sent_time = update p.flit_sent_time f.vc (p.flit_sent_time f.vc ++ now ∷ []);
  })

-- `_ComputeRTT`: a moving average. `rtt << scale` is at least `rtt`, so the `-` does not stop at 0.
unfoldable pub compute_rtt : Feedback → ℕ → ℕ → ℕ
compute_rtt p vc last_rtt = elim (p.round_trip_time vc) [
  | negsuc k ↦ last_rtt
  | pos rtt ↦ (rtt * 2 ^ p.aging_scale + last_rtt - rtt) / 2 ^ p.aging_scale
]

-- `_ComputeLimit`: where the difference is negative, the result is 1, as with 0.
unfoldable pub compute_limit : Feedback → ℕ → Outcome ℕ
compute_limit p rtt = do
  check (not (is_negative p.min_latency))
  ok (max (2 * pos_part p.min_latency + pos_part p.offset - (rtt + neg_part p.offset)) 1)

-- `_ComputeMaxSlots`.
unfoldable pub compute_max_slots : Feedback → ℕ → ℕ → Outcome ℕ
compute_max_slots p now vc = elim (p.flit_sent_time vc) [
  | [] ↦ ok (p.occupancy_limit vc)
  | sent ∷ _ ↦ compute_limit p (compute_rtt p vc (now - sent)) >>= λ limit.
      ok (min (p.occupancy_limit vc) limit)
]

-- The assignments at the end of `FreeSlotFor`.
unfoldable pub measured : Feedback → ℕ → ℕ → ℕ → List ℕ → Feedback
measured p vc rtt limit rest = record p {
  flit_sent_time = update p.flit_sent_time vc rest;
  round_trip_time = update p.round_trip_time vc (pos rtt);
  total_mapped_size = p.total_mapped_size + limit - p.occupancy_limit vc;
  occupancy_limit = update p.occupancy_limit vc limit;
}

-- The end of `FreeSlotFor`: the probe sent at `sent` is back.
unfoldable pub probe_back : Feedback → ℕ → ℕ → ℕ → List ℕ → Outcome Feedback
unfolding measured
probe_back p now vc sent rest = do
  let rtt = compute_rtt p vc (now - sent)
  limit ← compute_limit p rtt
  ok (measured p vc rtt limit rest)

-- `FreeSlotFor`.
unfoldable pub free_slot_for : Feedback → View → ℕ → ℕ → Outcome Feedback
free_slot_for p v now vc = do
  s ← Shared.free_slot_for p.base v vc
  elim (p.flit_sent_time vc) [
    | [] ↦ stop assertion
    | sent ∷ rest ↦ probe_back (record p { base = s }) now vc sent rest
  ]

-- `OccupancyFor(vc) >= _ComputeMaxSlots(vc)`.
over_limit : Feedback → View → ℕ → ℕ → Outcome Bool
over_limit p v now vc = do
  held ← occupancy_for v vc
  slots ← compute_max_slots p now vc
  ok (leb slots held)

-- `IsFullFor`.
unfoldable pub is_full_for : Feedback → View → ℕ → ℕ → Outcome Bool
unfolding over_limit
is_full_for p v now vc = do
  full ← Shared.is_full_for p.base vc
  if full then ok true else over_limit p v now vc

-- `AvailableFor`.
unfoldable pub available_for : Feedback → View → ℕ → ℕ → Outcome ℤ
available_for p v now vc = do
  n ← Shared.available_for p.base vc
  held ← occupancy_for v vc
  slots ← compute_max_slots p now vc
  ok (min_ℤ n (sub_ℕ slots held))

-- `LimitFor`.
unfoldable pub limit_for : Feedback → ℕ → ℕ → Outcome ℕ
limit_for p now vc = do
  n ← Shared.limit_for p.base vc
  slots ← compute_max_slots p now vc
  ok (min n slots)

-- `SimpleFeedbackSharedBufferPolicy`: one probe at a time for each VC.
pub record SimpleFeedback : Type 0 where
  pub feedback : Feedback
  pub open feedback use *
  pub pending_credits : ℕ → ℕ

-- `SimpleFeedbackSharedBufferPolicy::SendingFlit`; the view already counts the flit.
unfoldable pub sending_flit_simple : SimpleFeedback → View → ℕ → Flit → Outcome SimpleFeedback
sending_flit_simple p v now f = elim (p.flit_sent_time f.vc) [
  | [] ↦ occupancy_for v f.vc >>= λ held.
      check (ltb 0 held)
      >> (sending_flit p.feedback now f >>= λ q.
          ok (record { feedback = q; pending_credits = update p.pending_credits f.vc (held - 1) }))
  | _ ∷ _ ↦ Shared.sending_flit p.base f >>= λ s.
      ok (record p { feedback = record p.feedback { base = s } })
]

-- `SimpleFeedbackSharedBufferPolicy::FreeSlotFor`.
unfoldable pub free_slot_for_simple : SimpleFeedback → View → ℕ → ℕ → Outcome SimpleFeedback
free_slot_for_simple p v now vc = elim (p.pending_credits vc) [
  | zero ↦ elim (p.flit_sent_time vc) [
    | [] ↦ Shared.free_slot_for p.base v vc >>= λ s.
        ok (record p { feedback = record p.feedback { base = s } })
    | _ ∷ _ ↦ free_slot_for p.feedback v now vc >>= λ q. ok (record p { feedback = q })
  ]
  | suc n ↦ elim (p.flit_sent_time vc) [
    | [] ↦ stop assertion
    | _ ∷ _ ↦ Shared.free_slot_for p.base v vc >>= λ s. ok (record p {
      feedback = record p.feedback { base = s };
      pending_credits = update p.pending_credits vc n;
    })
  ]
]
