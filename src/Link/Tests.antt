-- ===== src/Link/Tests.antt =====
-- A link with one VC of two slots, and its theorems there.
use bzsim.Base.{
  ℕ, ◌≤◌, ◌≡◌, refl, inl, pos, negsuc, false, [], ◌∷◌, ok, arith, total, update, to_int,
}
use bzsim.Flit.{Flit}
use bzsim.VirtualChannel
use bzsim.VirtualChannel.{Vc, no_priority}
use bzsim.BufferPolicy
use bzsim.BufferPolicy.{private}
use bzsim.BufferPolicy.Private
use bzsim.BufferPolicy.View.{occupancy_for}
use bzsim.BufferState
use bzsim.BufferState.{BufferState, count_flit, sent_tail, end_use}
use bzsim.BufferState.Credits.{Inv}
use bzsim.Buffer
use bzsim.Buffer.{Buffer}
use bzsim.Buffer.Counts.{IsCounted}
use bzsim.Link.{Link, Step, here, onward, sends}
use bzsim.Link.Balance.{IsBalanced}
use bzsim.Link.Safe.{Step-IsBalanced, delivery_succeeds, credit_succeeds}

abbrev flit : Flit
flit = record { vc = 0; tail = false; id = 1; pid = 4; pri = pos 0; hops = pos 0 }

-- Packet 7 owns the VC; `n` slots are counted.
abbrev sender : ℕ → BufferState
sender n = record {
  view = record { vcs = 1; vc_occupancy = update (λ _. 0) 0 n; in_use_by = λ _. pos 7 };
  wait_for_tail_credit = false;
  size = 2;
  occupancy = n;
  buffer_policy = private (record { vc_buf_size = 2 });
  tail_sent = λ _. false;
  last_id = λ _. negsuc 0;
  last_pid = λ _. negsuc 0;
}

abbrev empty : Vc
empty = record {
  buffer = [];
  state = VirtualChannel.idle;
  out_port = negsuc 0;
  out_vc = negsuc 0;
  pri_type = no_priority;
  pri = pos 0;
  priority_donation = false;
  expected_pid = negsuc 0;
  last_id = negsuc 0;
  last_pid = negsuc 0;
}

abbrev receiver : Buffer
receiver = record { occupancy = pos 0; size = 2; vcs = 1; vc = λ _. empty }

abbrev quiet : Link
quiet = record { sender = sender 0; channel = []; receiver = receiver; credits = [] }

abbrev owing : Link
owing = record { sender = sender 1; channel = []; receiver = receiver; credits = 0 ∷ [] }

abbrev has_sent : BufferState
has_sent = record (sender 0) {
  view = record (sender 0).view { vc_occupancy = update (update (λ _. 0) 0 0) 0 1 };
  occupancy = 1;
  last_id = update (λ _. negsuc 0) 0 (pos 1);
  last_pid = update (λ _. negsuc 0) 0 (pos 4);
}

abbrev flying_one : Link
flying_one = record quiet { sender = has_sent; channel = flit ∷ [] }

sender-Inv : (n : ℕ) → n ≤ 2 → Inv (sender n)
unfolding total
sender-Inv n h = record { sum = ground arith; fits = h; sound = (λ v k. ground arith, omega arith) }

receiver-IsCounted : IsCounted receiver
unfolding total
receiver-IsCounted = record { count = refl; fits = omega arith }

quiet-IsBalanced : IsBalanced quiet
quiet-IsBalanced = record {
  sender = sender-Inv 0 (omega arith);
  receiver = receiver-IsCounted;
  size = refl;
  vcs = refl;
  flits = tt;
  credits = tt;
  balance = λ v. ground arith;
  owed = λ v h. inl refl;
}

owing-IsBalanced : IsBalanced owing
owing-IsBalanced = record {
  sender = sender-Inv 1 (omega arith);
  receiver = receiver-IsCounted;
  size = refl;
  vcs = refl;
  flits = tt;
  credits = (omega arith, tt);
  balance = λ v. ground arith;
  owed = λ v h. inl refl;
}

sends_one : Step quiet flying_one
unfolding BufferState.sending_flit BufferState.is_full_for BufferPolicy.is_full_for
    BufferPolicy.sending_flit Private.is_full_for Private.sending_flit occupancy_for count_flit
    to_int
sends_one = sends 0 flit (omega arith) refl refl (λ _. tt) refl

Step-IsBalanced_example : IsBalanced flying_one
Step-IsBalanced_example = Step-IsBalanced sends_one quiet-IsBalanced

abbrev holding : Vc
holding = record empty { buffer = flit ∷ []; expected_pid = pos 4 }

arrives : VirtualChannel.add_flit empty 3 flit ≡ ok holding
unfolding VirtualChannel.add_flit VirtualChannel.expect VirtualChannel.stamp
    VirtualChannel.update_priority VirtualChannel.update_from VirtualChannel.front_priority to_int
arrives = refl

delivery_succeeds_example : (r : Buffer) × (Buffer.add_flit receiver 3 0 flit ≡ ok r)
delivery_succeeds_example =
    delivery_succeeds 3 flit quiet-IsBalanced (onward here sends_one) refl arrives

credit_succeeds_example :
    (s : BufferState) × (BufferState.process_credit (sender 1) 5 (0 ∷ []) ≡ ok s)
credit_succeeds_example = credit_succeeds 5 0 owing-IsBalanced here refl
