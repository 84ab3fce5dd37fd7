-- ===== src/VirtualChannel/Tests.antt =====
-- A virtual channel at two packets, and its theorems there.
use bzsim.Base.{
  ◌<ℤ◌, ◌≢◌, ℕ, ◌+◌, ◌^◌, ◌≡◌, refl, inl, ℤ, pos, is_negative, true, false, List, [], ◌∷◌, map, ok,
  stop, error, to_int, arith,
}
use bzsim.Flit.{Flit}
use bzsim.VirtualChannel.{
  Vc, init, hop_count_based, queue_length_based, local_age_based, expect, stamp, update_from,
  update_priority, front_priority, add_flit, remove_from, remove_flit,
}
use bzsim.VirtualChannel.Packets.{Packets, no_packet, packet, add_all, add_all-Packets}
use bzsim.VirtualChannel.Accepts.{Packets-add_all}
use bzsim.VirtualChannel.Order.{at_rest, arrives, departs, plain, first_in_first_out}
use bzsim.VirtualChannel.Priority.{AreBelow, IsHeld, update_priority-AreBelow}
use bzsim.VirtualChannel.Wide.{add_all-wide, stamp_earlier, add_flit_expired}

abbrev flit : ℕ → ℕ → ℤ → Flit
flit id pid pri = record { vc = 0; tail = false; id = id; pid = pid; pri = pri; hops = pos 0 }

abbrev last : ℕ → ℕ → Flit
last id pid = record (flit id pid (pos 0)) { tail = true }

abbrev fresh : Vc
unfolding init
fresh = init queue_length_based false

-- Packet 4 of two flits, then packet 5 of one.
abbrev stream : List Flit
stream = flit 1 4 (pos 0) ∷ last 2 4 ∷ last 3 5 ∷ []

abbrev filled : Vc
filled = record fresh { buffer = stream; pri = pos 3 }

stream-Packets : Packets stream
stream-Packets =
    packet (flit 1 4 (pos 0) ∷ []) (last 2 4) (refl, refl, tt) refl
      (packet [] (last 3 5) tt refl no_packet)

accepted : add_all fresh (λ k. k) 0 stream ≡ ok filled
unfolding init add_flit expect stamp update_priority update_from front_priority to_int
accepted = refl

add_all-Packets_example : Packets stream
unfolding init
add_all-Packets_example =
    add_all-Packets stream fresh filled (λ k. k) accepted
      (omega arith, (omega arith, (omega arith, tt))) refl refl

Packets-add_all_example :
    (w : Vc) × (add_all fresh (λ k. k) 0 stream ≡ ok w)
    × (is_negative w.expected_pid ≡ true)
    × (w.buffer ≡ stream)
unfolding init stamp
Packets-add_all_example =
    Packets-add_all stream fresh (λ k. k) stream-Packets
      (omega arith, (omega arith, (omega arith, tt))) refl (λ n f. refl)

abbrev holds : Vc
holds = record fresh { buffer = flit 1 4 (pos 0) ∷ []; pri = pos 1; expected_pid = pos 4 }

abbrev emptied : Vc
emptied = record fresh { pri = pos 1; expected_pid = pos 4; last_id = pos 1; last_pid = pos 4 }

adds : add_flit fresh 0 (flit 1 4 (pos 0)) ≡ ok holds
unfolding init add_flit expect stamp update_priority update_from front_priority to_int
adds = refl

removes : remove_flit holds ≡ ok (emptied, flit 1 4 (pos 0))
unfolding init remove_flit remove_from update_priority update_from to_int
removes = refl

first_in_first_out_example : map plain (flit 1 4 (pos 0) ∷ []) ≡ map plain (flit 1 4 (pos 0) ∷ [])
unfolding init
first_in_first_out_example =
    first_in_first_out
      (arrives 0 (flit 1 4 (pos 0)) adds (departs (flit 1 4 (pos 0)) removes at_rest))

abbrev donating : Vc
donating = record fresh {
  buffer = flit 1 4 (pos 2) ∷ flit 2 4 (pos 9) ∷ [];
  pri_type = hop_count_based;
  priority_donation = true;
}

update_priority-AreBelow_example :
    AreBelow (update_priority donating).pri donating.buffer
    × IsHeld (update_priority donating).pri donating.buffer
update_priority-AreBelow_example =
    update_priority-AreBelow donating (flit 1 4 (pos 2)) (flit 2 4 (pos 9) ∷ []) refl refl
      (inl refl)

add_all-wide_example :
    add_all fresh (λ k. k) 0 (flit 1 (2 ^ 32 + 7) (pos 0) ∷ last 2 (2 ^ 32 + 7) ∷ []) ≡ stop error
unfolding init stamp
add_all-wide_example =
    add_all-wide fresh (λ k. k) (flit 1 (2 ^ 32 + 7) (pos 0)) (last 2 (2 ^ 32 + 7)) refl refl refl
      refl (omega arith) (omega arith)

earlier_first :
    (f : Flit) × (g : Flit) × (stamp local_age_based 3 (last 1 4) ≡ ok f)
    × (stamp local_age_based 5 (last 2 5) ≡ ok g)
    × (g.pri <ℤ f.pri)
earlier_first = stamp_earlier 3 5 (last 1 4) (last 2 5) (omega arith) (omega arith)

abbrev aged : Vc
aged = record fresh { pri_type = local_age_based }

add_flit_expired_example : add_flit aged (2 ^ 31) (last 1 4) ≢ ok aged
add_flit_expired_example =
    add_flit_expired aged aged (2 ^ 31) (last 1 4) refl (omega arith) (omega arith)
