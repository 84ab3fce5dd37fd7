-- ===== src/BufferState/Protocol.antt =====
-- Whole credits, taking a VC, and the first state.
use bzsim.Base.{
  inl, inr, ℕ, ◌-◌, ◌<◌, ◌≡◌, ◌≢◌, refl, sym, ap, ◌∙◌, ℤ, is_negative, Bool, true, false, update,
  List, [], ◌∷◌, ok, ◌>>=◌, arith, total-zero,
}
use bzsim.BufferPolicy.{Policy}
use bzsim.BufferPolicy.View.{View}
use bzsim.BufferPolicy.Contract.{Sound, HasPacket, HasSpare, uncounted, take_buffer-Sound}
use bzsim.BufferState.{BufferState, init, process_credit, take_buffer}
use bzsim.BufferState.Credits.{Inv, IsOwed, users_after, credit_vc-Inv}

-- `vc` is not in the list.
abbrev pub Distinct : ℕ → List ℕ → Type 0
Distinct vc [] = Unit
Distinct vc (v ∷ rest) = (vc ≢ v) × Distinct vc rest

-- The VCs of a credit: each holds a flit, a packet owns it where that is asked, and none comes twice.
abbrev pub Creditable : BufferState → List ℕ → Type 0
Creditable b [] = Unit
Creditable b (vc ∷ rest) =
    (vc < b.vcs) × (0 < b.vc_occupancy vc) × IsOwed b vc × Distinct vc rest × Creditable b rest

-- One flit fewer in each of the VCs.
abbrev pub without : (ℕ → ℕ) → List ℕ → ℕ → ℕ
without held [] = held
without held (vc ∷ rest) = without (update held vc (held vc - 1)) rest

-- A credit for one VC leaves the others as they were.
Creditable-rest :
    (b c : BufferState) (vc : ℕ) (rest : List ℕ)
    → c.view ≡ record (uncounted b.view vc) { in_use_by = users_after b vc }
    → ((v : ℕ) → 0 < c.vc_occupancy v → IsOwed b v → IsOwed c v)
    → Distinct vc rest
    → Creditable b rest
    → Creditable c rest
Creditable-rest b c vc [] e o d h = tt
Creditable-rest b c vc (v ∷ rest) e o (ne, d) (lt, some, owed, d', h) =
    let some' : 0 < c.vc_occupancy v = rw e (ground (arith, some)) in
    (rw e lt, some', o v some' owed, d', Creditable-rest b c vc rest e o d h)

-- A credit for flits that were sent is taken without error, and each of its VCs then counts one
-- flit fewer.
pub process_credit-Inv :
    (vcs : List ℕ) (b : BufferState) (now : ℕ)
    → Inv b
    → Creditable b vcs
    → (c : BufferState) × (process_credit b now vcs ≡ ok c)
      × Inv c
      × (c.vc_occupancy ≡ without b.vc_occupancy vcs)
      × (c.size ≡ b.size)
unfolding process_credit
process_credit-Inv [] b now inv h = (b, refl, inv, refl, refl)
process_credit-Inv (vc ∷ rest) b now inv (lt, some, used, d, h) =
    let (c, e, inv', v, s, o') = credit_vc-Inv b now vc inv lt some used in
    let (c', e', inv'', o, s') =
      process_credit-Inv rest c now inv' (Creditable-rest b c vc rest v o' d h) in
    (c', rw (e, ◌>>=◌) e', inv'', o ∙ ap (λ (w : View). without w.vc_occupancy rest) v, s' ∙ s)

-- The counters are as they were, and VCs that credits may come for are still in use.
pub record IsSame (b c : BufferState) : Type 0 where
  pub vcs : c.vcs ≡ b.vcs
  pub held : c.vc_occupancy ≡ b.vc_occupancy
  pub size : c.size ≡ b.size
  pub owed : (v : ℕ) → IsOwed b v → IsOwed c v

-- A free VC can be taken while the policy has one to spare; it is then in use under its tag,
-- with no tail sent, and the counters are as they were.
pub take_buffer-Inv :
    (b : BufferState) (vc : ℕ) (tag : ℤ)
    → Inv b
    → vc < b.vcs
    → is_negative (b.in_use_by vc) ≡ true
    → is_negative tag ≡ false
    → HasSpare b.buffer_policy
    → (c : BufferState) × (take_buffer b vc tag ≡ ok c)
      × Inv c
      × (c.in_use_by vc ≡ tag)
      × (c.tail_sent vc ≡ false)
      × HasPacket c.buffer_policy
      × IsSame b c
unfolding take_buffer
take_buffer-Inv b vc tag inv h free owner spare =
    let (p, e, s, packet) =
      take_buffer-Sound b.size b.buffer_policy b.vcs vc b.vc_occupancy inv.sound spare in
    (
      record b {
        view = record b.view { in_use_by = update b.in_use_by vc tag };
        tail_sent = update b.tail_sent vc false;
        buffer_policy = p;
      },
      ground (arith, free, e),
      record { sum = inv.sum; fits = inv.fits; sound = s },
      ground arith,
      ground arith,
      packet,
      record {
        vcs = refl;
        held = refl;
        size = refl;
        owed = λ v o. elim o [
          | inl no_wait ↦ inl no_wait
          | inr used ↦ inr (ground (arith, used, owner))
        ];
      },
    )

-- The first state is consistent with every policy that fits an empty buffer.
pub init-Inv :
    (buf_size : ℤ) (vcs vc_buf_size : ℕ) (wait : Bool) (p : Policy)
    → let b = init buf_size vcs vc_buf_size wait p in Sound b.size vcs (λ _. 0) p → Inv b
unfolding init
init-Inv buf_size vcs vc_buf_size wait p s = record {
  sum = sym (total-zero vcs (λ _. 0) (λ i h. refl));
  fits = omega arith;
  sound = s;
}
