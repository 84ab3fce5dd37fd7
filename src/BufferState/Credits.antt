-- ===== src/BufferState/Credits.antt =====
-- Credit-based flow control: the counters agree with one another and with the policy, and a sender
-- that asks the policy first never meets an error.
use bzsim.Base.{
  to_int, ℕ, ◌+◌, ◌-◌, ◌≤◌, ◌<◌, ◌≡◌, ◌⊎◌, refl, sym, subst, ap, ◌∙◌, ℤ, negsuc, is_negative, true,
  false, ◌&&◌, ◌==◌, update, if◌then◌else◌, inl, inr, Outcome, ok, ◌>>=◌, arith, total,
  total-change, le-total, Bool-cases,
}
use bzsim.Flit.{Flit}
use bzsim.BufferPolicy.Shared.Flow.{sent}
use bzsim.BufferPolicy.Shared.Account.{decrement_pos}
use bzsim.BufferPolicy.Contract.{
  Sound, HasPacket, counted, uncounted, sending_flit-Sound, free_slot_for-Sound, not_full-lt,
}
use bzsim.BufferState.{
  BufferState, end_use, count_credit, credit_vc, count_flit, sent_tail, sending_flit, is_full_for,
}

pub record Inv (b : BufferState) : Type 0 where
  pub sum : b.occupancy ≡ total b.vcs b.vc_occupancy
  pub fits : b.occupancy ≤ b.size
  pub sound : Sound b.size b.vcs b.vc_occupancy b.buffer_policy

-- A packet owns the VC, as far as the call needs it.
abbrev pub IsUsed : BufferState → ℕ → Type 0
IsUsed b vc = is_negative (b.in_use_by vc) ≡ false

-- What a credit needs of the use of its VC: with `wait_for_tail_credit`, a packet still owns it.
abbrev pub IsOwed : BufferState → ℕ → Type 0
IsOwed b vc = (b.wait_for_tail_credit ≡ false) ⊎ IsUsed b vc

-- Only who uses the VCs, and what is remembered of flits, may differ.
record SameCounts (b c : BufferState) : Type 0 where
  vcs : c.vcs ≡ b.vcs
  held : c.vc_occupancy ≡ b.vc_occupancy
  size : c.size ≡ b.size
  occupancy : c.occupancy ≡ b.occupancy
  policy : c.buffer_policy ≡ b.buffer_policy
  owed : (v : ℕ) → IsOwed b v → IsOwed c v

SameCounts-Inv : {b c : BufferState} → SameCounts b c → Inv b → Inv c
SameCounts-Inv {b} {c} e inv = record {
  sum =
      e.occupancy
      ∙ inv.sum
      ∙ sym (ap (λ n. total n c.vc_occupancy) e.vcs ∙ ap (total b.vcs) e.held);
  fits = omega (arith, inv.fits, e.occupancy, e.size);
  sound =
      subst (λ n. Sound n c.vcs c.vc_occupancy c.buffer_policy) (sym e.size)
        (subst (λ n. Sound b.size n c.vc_occupancy c.buffer_policy) (sym e.vcs)
          (subst (λ g. Sound b.size b.vcs g c.buffer_policy) (sym e.held)
            (subst (Sound b.size b.vcs b.vc_occupancy) (sym e.policy) inv.sound)));
}

sent_tail-SameCounts :
    (b : BufferState) (vc : ℕ)
    → IsUsed b vc
    → (c : BufferState) × (sent_tail b vc ≡ ok c) × SameCounts b c
unfolding sent_tail end_use
sent_tail-SameCounts b vc used = elim (Bool-cases b.wait_for_tail_credit) [
  | inl wait ↦ (
    record b { tail_sent = update b.tail_sent vc true },
    ground arith,
    record {
      vcs = refl;
      held = refl;
      size = refl;
      occupancy = refl;
      policy = refl;
      owed = λ v o. o;
    },
  )
  | inr no_wait ↦ (
    record b {
      tail_sent = update b.tail_sent vc true;
      view = record b.view { in_use_by = update b.in_use_by vc (negsuc 0) };
    },
    ground (arith, used),
    record {
      vcs = refl;
      held = refl;
      size = refl;
      occupancy = refl;
      policy = refl;
      owed = λ v o. inl no_wait;
    },
  )
]

-- The call succeeds and the counters it leaves are right: `held` flits in each VC.
abbrev pub Leaves : BufferState → (ℕ → ℕ) → Outcome BufferState → Type 0
Leaves b held o =
    (c : BufferState) × (o ≡ ok c)
    × Inv c
    × (c.vc_occupancy ≡ held)
    × (c.vcs ≡ b.vcs)
    × (c.size ≡ b.size)
    × ((v : ℕ) → IsOwed b v → IsOwed c v)

counted_sum :
    (b : BufferState) (vc : ℕ)
    → vc < b.vcs
    → b.occupancy ≡ total b.vcs b.vc_occupancy
    → b.occupancy + 1 ≡ total b.vcs (sent b.vc_occupancy vc)
counted_sum b vc h e =
    ground (
      arith,
      total-change b.vcs b.vc_occupancy (sent b.vc_occupancy vc) vc h (λ j ne. ground arith),
    )

counts_flit :
    (b : BufferState) (f : Flit)
    → f.vc < b.vcs
    → b.occupancy < b.size
    → count_flit b f ≡ ok (record b { occupancy = b.occupancy + 1; view = counted b.view f.vc })
unfolding count_flit
counts_flit b f h lt = ground arith

-- The last flit of a VC.
abbrev remember : BufferState → Flit → BufferState
remember b f = record b {
  last_id = update b.last_id f.vc (to_int f.id);
  last_pid = update b.last_pid f.vc (to_int f.pid);
}

remember-Inv : {b : BufferState} (f : Flit) → Inv b → Inv (remember b f)
remember-Inv f inv = record { sum = inv.sum; fits = inv.fits; sound = inv.sound }

-- A sender whose counters are right, which has taken the VC and is told that it is not full, can send,
-- at a tail where the policy counts a packet in progress: no counter overflows, the policy has a slot,
-- and the flit is counted once.
pub sending_flit-Inv :
    (b : BufferState) (now : ℕ) (f : Flit)
    → Inv b
    → f.vc < b.vcs
    → is_full_for b now f.vc ≡ ok false
    → IsUsed b f.vc
    → (f.tail ≡ true → HasPacket b.buffer_policy)
    → Leaves b (sent b.vc_occupancy f.vc) (sending_flit b now f)
unfolding sending_flit is_full_for
sending_flit-Inv b now f inv h full used packet =
    let lt : total b.vcs b.vc_occupancy < b.size =
      not_full-lt b.size b.buffer_policy b.view now f.vc inv.sound h full in
    let (p, e, s) =
      sending_flit-Sound b.size b.buffer_policy b.view now f inv.sound h full packet in
    let d : BufferState = record b {
      occupancy = b.occupancy + 1;
      view = counted b.view f.vc;
      buffer_policy = p;
    } in
    let inv_d : Inv d = record {
      sum = counted_sum b f.vc h inv.sum;
      fits = omega (arith, lt, inv.sum);
      sound = s;
    } in
    let counts : count_flit b f
        ≡ ok (record b { occupancy = b.occupancy + 1; view = counted b.view f.vc }) =
      counts_flit b f h (omega (arith, lt, inv.sum)) in
    elim (Bool-cases f.tail) [
      | inl tail ↦
          let (c, e', same) = sent_tail-SameCounts d f.vc used in
          (
            remember c f,
            rw (counts, ◌>>=◌, e, tail, e'),
            remember-Inv f (SameCounts-Inv same inv_d),
            same.held,
            same.vcs,
            same.size,
            same.owed,
          )
      | inr body ↦ (
        remember d f,
        rw (counts, ◌>>=◌, e, body),
        remember-Inv f inv_d,
        refl,
        refl,
        refl,
        λ v o. o,
      )
    ]

-- The users after the credit: with `wait_for_tail_credit`, the credit of the last flit of a packet
-- ends the use of its VC.
abbrev pub users_after : BufferState → ℕ → ℕ → ℤ
users_after b vc =
    if (b.wait_for_tail_credit && (b.vc_occupancy vc - 1) == 0 && b.tail_sent vc)
    then update b.in_use_by vc (negsuc 0)
    else b.in_use_by

users_after-IsOwed :
    (b : BufferState) (vc v : ℕ)
    → 0 < update b.vc_occupancy vc (b.vc_occupancy vc - 1) v
    → IsOwed b v
    → (b.wait_for_tail_credit ≡ false) ⊎ (is_negative (users_after b vc v) ≡ false)
users_after-IsOwed b vc v some (inl no_wait) = inl no_wait
users_after-IsOwed b vc v some (inr used) = inr (ground (arith, used))

-- The state with the credit counted.
abbrev with_credit : BufferState → ℕ → BufferState
with_credit b vc = record b {
  occupancy = b.occupancy - 1;
  view = record (uncounted b.view vc) { in_use_by = users_after b vc };
}

count_credit-ok :
    (b : BufferState) (vc : ℕ)
    → vc < b.vcs
    → 0 < b.vc_occupancy vc
    → 0 < b.occupancy
    → IsOwed b vc
    → count_credit b vc ≡ ok (record b { occupancy = b.occupancy - 1; view = uncounted b.view vc })
unfolding count_credit
count_credit-ok b vc h some some' used =
    ground (arith, decrement_pos b.occupancy some', decrement_pos (b.vc_occupancy vc) some)

end_use-ok :
    (b : BufferState) (vc : ℕ)
    → IsUsed b vc
    → end_use b vc
      ≡ ok (record b { view = record b.view { in_use_by = update b.in_use_by vc (negsuc 0) } })
unfolding end_use
end_use-ok b vc used = ground (arith, used)

ended :
    (b : BufferState) (vc : ℕ)
    → IsOwed b vc
    → let c = record b { occupancy = b.occupancy - 1; view = uncounted b.view vc } in
      (if (c.wait_for_tail_credit && c.vc_occupancy vc == 0 && c.tail_sent vc)
        then end_use c vc
        else ok c)
      ≡ ok (with_credit b vc)
ended b vc (inl no_wait) = ground arith
ended b vc (inr used) = ground (
  arith,
  end_use-ok (record b { occupancy = b.occupancy - 1; view = uncounted b.view vc }) vc used,
)

-- The credit of a flit that was sent is taken without error: one flit fewer in its VC, and the VC's
-- use ends exactly with the last credit of a packet whose tail was sent.
pub credit_vc-Inv :
    (b : BufferState) (now vc : ℕ)
    → Inv b
    → vc < b.vcs
    → 0 < b.vc_occupancy vc
    → IsOwed b vc
    → (c : BufferState) × (credit_vc b now vc ≡ ok c)
      × Inv c
      × (c.view ≡ record (uncounted b.view vc) { in_use_by = users_after b vc })
      × (c.size ≡ b.size)
      × ((v : ℕ) → 0 < c.vc_occupancy v → IsOwed b v → IsOwed c v)
unfolding credit_vc
credit_vc-Inv b now vc inv h some used =
    let some' : 0 < b.occupancy = omega (arith, inv.sum, le-total b.vcs b.vc_occupancy vc h) in
    let (p, e, s) =
      free_slot_for-Sound b.size b.buffer_policy b.view now vc inv.sound h some
        (users_after b vc) in
    (
      record (with_credit b vc) { buffer_policy = p },
      rw (count_credit-ok b vc h some some' used, ◌>>=◌, ended b vc used) (rw e refl),
      record {
        sum = ground (
          arith,
          inv.sum,
          total-change b.vcs b.vc_occupancy (uncounted b.view vc).vc_occupancy vc h
              (λ j ne. ground arith),
        );
        fits = omega (arith, inv.fits);
        sound = s;
      },
      refl,
      refl,
      users_after-IsOwed b vc,
    )
