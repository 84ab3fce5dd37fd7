-- ===== src/BufferPolicy/Tests.antt =====
-- The theorems of the buffer policies at concrete states.
use bzsim.Base.{ℕ, ◌≡◌, refl, pos, negsuc, true, false, [], ◌∷◌, ok, arith, total, update}
use bzsim.Flit.{Flit}
use bzsim.BufferPolicy.Shared
use bzsim.BufferPolicy.Shared.{Shared, group}
use bzsim.BufferPolicy.Shared.Account.{Accounts}
use bzsim.BufferPolicy.Shared.Flow.{held}
use bzsim.BufferPolicy.Limited
use bzsim.BufferPolicy.Limited.{
  Limited, halve, take_buffer_dynamic, take_buffer_shifting, sending_flit_dynamic,
}
use bzsim.BufferPolicy.Feedback.{Feedback}

-- One group for both VCs: two private slots and two in the pool. VC 0 holds one filled slot and
-- one that is reserved.
abbrev pool : Shared
pool = record {
  buf_size = 4;
  groups = 1;
  private_buf_vc_map = λ _. pos 0;
  private_buf_size = λ _. 2;
  private_buf_occupancy = update (λ _. 0) 0 2;
  shared_buf_size = 2;
  shared_buf_occupancy = 0;
  reserved_slots = update (λ _. 0) 0 1;
}

abbrev tail : Flit
tail = record { vc = 0; id = 5; pid = 3; tail = true; pri = pos 0; hops = pos 0 }

abbrev occupied : ℕ → ℕ
occupied = update (λ _. 0) 0 1

pool-Accounts : Accounts 4 2 (held occupied pool) pool
unfolding total
pool-Accounts = record {
  mapped = λ v _. (0, refl, omega arith);
  private = λ i. ground arith;
  pool = ground arith;
  fits = omega arith;
  capacity = omega arith;
}

pool_not_full : Shared.is_full_for pool 0 ≡ ok false
unfolding Shared.is_full_for group
pool_not_full = refl

abbrev limited : Limited
limited = record { base = pool; vcs = 2; active_vcs = 1; max_held_slots = 4 }

abbrev sent_tail : Limited
sent_tail = record limited {
  base = record pool { reserved_slots = update (update (λ _. 0) 0 1) 0 0 };
  active_vcs = 0;
}

sends_tail : sending_flit_dynamic limited tail ≡ ok sent_tail
unfolding sending_flit_dynamic Limited.sending_flit Shared.sending_flit Shared.use_slot
    Shared.release_reserved
sends_tail = refl

-- A minimum latency of 3; the probe of VC 0 left at time 10.
abbrev timed : Feedback
timed = record {
  base = pool;
  occupancy_limit = λ _. 4;
  round_trip_time = λ _. negsuc 0;
  flit_sent_time = update (λ _. []) 0 (10 ∷ []);
  min_latency = pos 3;
  total_mapped_size = 8;
  aging_scale = 2;
  offset = pos 0;
}
