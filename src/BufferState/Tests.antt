-- ===== src/BufferState/Tests.antt =====
-- A buffer of two VCs and four slots, two of them private and two shared, under the dynamic policy;
-- a buffer of two VCs with two slots each; and the theorems at these.
use bzsim.Base.{
  inr, ℕ, ◌*◌, ◌≤◌, ◌≡◌, refl, pos, negsuc, true, false, [], ◌∷◌, ok, stop, error, arith, total,
  update,
}
use bzsim.Flit.{Flit}
use bzsim.BufferPolicy
use bzsim.BufferPolicy.{Policy, private, dynamic}
use bzsim.BufferPolicy.Private.{Private}
use bzsim.BufferPolicy.View.{occupancy_for}
use bzsim.BufferPolicy.Shared
use bzsim.BufferPolicy.Shared.{Shared, group}
use bzsim.BufferPolicy.Shared.Flow.{sent}
use bzsim.BufferPolicy.Limited
use bzsim.BufferPolicy.Limited.{Limited}
use bzsim.BufferPolicy.Contract.{
  Sound, HasPacket, Serves, counted, sending_flit-Sound, free_slot_for-Sound, take_buffer-Sound,
  uncounted,
}
use bzsim.BufferState.{
  BufferState, init, config_size, sending_flit, process_credit, is_full_for, inc_vc_buf_size,
}
use bzsim.BufferState.Credits.{Inv, Leaves, sending_flit-Inv}
use bzsim.BufferState.Protocol.{without, process_credit-Inv, init-Inv}
use bzsim.BufferState.Latency.{inc_vc_buf_size-overflow}

abbrev pool : ℕ → Shared
pool n = record {
  buf_size = 4;
  groups = 1;
  private_buf_vc_map = λ _. pos 0;
  private_buf_size = λ _. 2;
  private_buf_occupancy = update (λ _. 0) 0 n;
  shared_buf_size = 2;
  shared_buf_occupancy = 0;
  reserved_slots = λ _. 0;
}

-- `n` flits are in VC 0, which `active` packets hold.
abbrev policy : ℕ → ℕ → Policy
policy n active =
    dynamic (record { base = pool n; vcs = 2; active_vcs = active; max_held_slots = 4 })

abbrev empty : BufferState
unfolding init
empty = init (pos 4) 2 2 true (policy 0 0)

abbrev flit : Flit
flit = record { vc = 0; id = 5; pid = 3; tail = true; pri = pos 0; hops = pos 0 }

-- VC 0 is taken under tag 7, and holds `n` flits.
abbrev in_use : ℕ → BufferState
in_use n = record {
  view = record {
    vcs = 2;
    vc_occupancy = update (λ _. 0) 0 n;
    in_use_by = update (λ _. negsuc 0) 0 (pos 7);
  };
  wait_for_tail_credit = true;
  size = 4;
  occupancy = n;
  buffer_policy = policy n 1;
  tail_sent = λ _. false;
  last_id = λ _. negsuc 0;
  last_pid = λ _. negsuc 0;
}

policy-Sound :
    (n active : ℕ) → n ≤ 2 → active ≤ 2 → Sound 4 2 (update (λ _. 0) 0 n) (policy n active)
unfolding total
policy-Sound n active h k = (
  record {
    mapped = λ v _. (0, refl, omega arith);
    private = λ i. ground arith;
    pool = ground arith;
    fits = omega arith;
    capacity = omega arith;
  },
  record { active = omega arith; roomy = omega arith; positive = omega arith },
)

in_use-Inv : (n : ℕ) → n ≤ 2 → Inv (in_use n)
unfolding total
in_use-Inv n h = record {
  sum = ground arith;
  fits = omega arith;
  sound = policy-Sound n 1 h (omega arith);
}

not_full : is_full_for (in_use 1) 0 0 ≡ ok false
unfolding is_full_for BufferPolicy.is_full_for Limited.is_full_for Shared.is_full_for group
    occupancy_for
not_full = refl

policy_not_full : BufferPolicy.is_full_for (policy 1 1) (in_use 1).view 0 0 ≡ ok false
unfolding BufferPolicy.is_full_for Limited.is_full_for Shared.is_full_for group occupancy_for
policy_not_full = refl

empty-Sound : Sound 4 2 (λ _. 0) (policy 0 0)
unfolding total
empty-Sound = (
  record {
    mapped = λ v _. (0, refl, omega arith);
    private = λ i. ground arith;
    pool = ground arith;
    fits = omega arith;
    capacity = omega arith;
  },
  record { active = omega arith; roomy = omega arith; positive = omega arith },
)

empty-Inv : Inv empty
unfolding init config_size
empty-Inv = init-Inv (pos 4) 2 2 true (policy 0 0) empty-Sound

sending_flit-Inv_example :
    Leaves (in_use 1) (sent (in_use 1).vc_occupancy 0) (sending_flit (in_use 1) 0 flit)
sending_flit-Inv_example =
    sending_flit-Inv (in_use 1) 0 flit (in_use-Inv 1 (omega arith)) (omega arith) not_full refl
      (λ _. omega arith)

process_credit-Inv_example :
    (c : BufferState) × (process_credit (in_use 2) 0 (0 ∷ []) ≡ ok c)
    × Inv c
    × (c.vc_occupancy ≡ without (in_use 2).vc_occupancy (0 ∷ []))
    × (c.size ≡ 4)
process_credit-Inv_example =
    process_credit-Inv (0 ∷ []) (in_use 2) 0 (in_use-Inv 2 (omega arith))
      (omega arith, omega arith, inr refl, tt, tt)

sending_flit-Sound_example :
    Serves 4 2
      (sent (in_use 1).vc_occupancy 0)
      (BufferPolicy.sending_flit (policy 1 1) (counted (in_use 1).view 0) 0 flit)
sending_flit-Sound_example =
    sending_flit-Sound 4 (policy 1 1) (in_use 1).view 0 flit
      (policy-Sound 1 1 (omega arith) (omega arith)) (omega arith) policy_not_full
      (λ _. omega arith)

free_slot_for-Sound_example : Serves 4 2 (uncounted (in_use 1).view 0).vc_occupancy (
    BufferPolicy.free_slot_for
      (policy 1 1)
      (record (uncounted (in_use 1).view 0) { in_use_by = (in_use 1).in_use_by })
      0
      0)
free_slot_for-Sound_example =
    free_slot_for-Sound 4 (policy 1 1) (in_use 1).view 0 0
      (policy-Sound 1 1 (omega arith) (omega arith)) (omega arith) (omega arith)
      (in_use 1).in_use_by

take_buffer-Sound_example :
    (q : Policy) × (BufferPolicy.take_buffer (policy 1 1) 1 ≡ ok q)
    × Sound 4 2 (in_use 1).vc_occupancy q
    × HasPacket q
take_buffer-Sound_example =
    take_buffer-Sound 4 (policy 1 1) 2 1 (in_use 1).vc_occupancy
      (policy-Sound 1 1 (omega arith) (omega arith)) (omega arith)

-- Two slots for each of the VCs, `n` flits in each, in a buffer of `size` slots.
abbrev own : Private
own = record { vc_buf_size = 2 }

abbrev private_state : ℕ → ℕ → BufferState
private_state size n = record {
  view = record { vcs = 2; vc_occupancy = λ _. n; in_use_by = λ _. pos 7 };
  wait_for_tail_credit = false;
  size = size;
  occupancy = 2 * n;
  buffer_policy = private own;
  tail_sent = λ _. false;
  last_id = λ _. negsuc 0;
  last_pid = λ _. negsuc 0;
}

private_state-Inv : (size n : ℕ) → n ≤ 2 → 4 ≤ size → Inv (private_state size n)
unfolding total
private_state-Inv size n h k = record {
  sum = ground arith;
  fits = omega arith;
  sound = (λ v _. h, k);
}

inc_vc_buf_size-overflow_example :
    (c : BufferState) × (inc_vc_buf_size (private_state 4 2) 1 ≡ ok c)
    × (is_full_for c 0 0 ≡ ok false)
    × (sending_flit c 0 flit ≡ stop error)
inc_vc_buf_size-overflow_example =
    inc_vc_buf_size-overflow (private_state 4 2) own 0 1 flit refl (omega arith) (omega arith)
      (omega arith) refl
