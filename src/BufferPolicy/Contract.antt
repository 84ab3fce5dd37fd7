-- ===== src/BufferPolicy/Contract.antt =====
-- What every buffer policy promises to the buffer state that owns it: a sender that asks first
-- meets no error.
use bzsim.Base.{
  ℕ, ◌+◌, ◌-◌, ◌*◌, ◌≤◌, ◌<◌, ◌≡◌, refl, sym, ap, subst, ℤ, false, true, update, if◌then◌else◌,
  Outcome, ok, ◌>>=◌, arith, total, total-lt, total-const,
}
use bzsim.Flit.{Flit}
use bzsim.BufferPolicy.View.{View}
use bzsim.BufferPolicy.Private
use bzsim.BufferPolicy.Private.{Private}
use bzsim.BufferPolicy.Shared.{Shared}
use bzsim.BufferPolicy.Shared.Account.{Accounts}
use bzsim.BufferPolicy.Shared.Flow.{held, sent, sending_flit-Keeps, free_slot_for-Keeps}
use bzsim.BufferPolicy.Shared.Capacity.{occupancy-lt}
use bzsim.BufferPolicy.Limited
use bzsim.BufferPolicy.Limited.{Limited}
use bzsim.BufferPolicy.Limited.Flow.{
  IsDivided, sending_flit-limited, sending_flit-dynamic, sending_flit-shifting,
}
use bzsim.BufferPolicy.Limited.Limits.{take_buffer_dynamic-IsShare, take_buffer_shifting-IsShare}
use bzsim.BufferPolicy.Feedback
use bzsim.BufferPolicy.Feedback.{Feedback, SimpleFeedback}
use bzsim.BufferPolicy.Feedback.Credits.{
  IsTimed, HasProbe, sending_flit-IsTimed, free_slot_for-IsTimed, sending_flit-HasProbe,
  free_slot_for-HasProbe,
}
use bzsim.BufferPolicy.{
  Policy, private, shared, limited, dynamic, shifting, feedback, simple_feedback, take_buffer,
  sending_flit, free_slot_for, is_full_for,
}

-- The policy's state fits the occupancies `occ` of the first `vcs` VCs.
abbrev pub Sound : ℕ → ℕ → (ℕ → ℕ) → Policy → Type 0
Sound cap vcs occ (private p) =
    ((v : ℕ) → v < vcs → occ v ≤ p.vc_buf_size) × (vcs * p.vc_buf_size ≤ cap)
Sound cap vcs occ (shared s) = Accounts cap vcs (held occ s) s
Sound cap vcs occ (limited l) = Accounts cap vcs (held occ l.base) l.base
Sound cap vcs occ (dynamic l) = Accounts cap vcs (held occ l.base) l.base × IsDivided 1 l
Sound cap vcs occ (shifting l) = Accounts cap vcs (held occ l.base) l.base × IsDivided 2 l
Sound cap vcs occ (feedback p) = Accounts cap vcs (held occ p.base) p.base × IsTimed occ p
Sound cap vcs occ (simple_feedback p) = Accounts cap vcs (held occ p.base) p.base × HasProbe occ p

-- A policy that counts active VCs counts one, or has one left to give.
abbrev pub HasPacket : Policy → Type 0
HasPacket (limited l) = 0 < l.active_vcs
HasPacket (dynamic l) = 0 < l.active_vcs
HasPacket (shifting l) = 0 < l.active_vcs
HasPacket p = Unit

abbrev pub HasSpare : Policy → Type 0
HasSpare (limited l) = l.active_vcs < l.vcs
HasSpare (dynamic l) = l.active_vcs < l.vcs
HasSpare (shifting l) = l.active_vcs < l.vcs
HasSpare p = Unit

-- The call succeeds and leaves a policy that fits `occ`.
abbrev pub Serves : ℕ → ℕ → (ℕ → ℕ) → Outcome Policy → Type 0
Serves cap vcs occ o = (p : Policy) × (o ≡ ok p) × Sound cap vcs occ p

-- The view after a flit is counted for VC `vc`.
abbrev pub counted : View → ℕ → View
counted v vc = record v { vc_occupancy = sent v.vc_occupancy vc }

-- The view after a flit is no longer counted.
abbrev pub uncounted : View → ℕ → View
uncounted v vc = record v { vc_occupancy = update v.vc_occupancy vc (v.vc_occupancy vc - 1) }

private_flit :
    (p : Private) (v : View) (f : Flit)
    → ((j : ℕ) → j < v.vcs → v.vc_occupancy j ≤ p.vc_buf_size)
    → f.vc < v.vcs
    → Private.is_full_for p v f.vc ≡ ok false
    → (Private.sending_flit p (counted v f.vc) f.vc ≡ ok p)
      × ((j : ℕ) → j < v.vcs → sent v.vc_occupancy f.vc j ≤ p.vc_buf_size)
unfolding Private.sending_flit Private.is_full_for
private_flit p v f s h full = (ground arith, λ j k. ground (arith, s j k))

-- The same, with the users that `ProcessCredit` leaves.
abbrev pub credited : View → ℕ → (ℕ → ℤ) → View
credited v vc in_use_by = record (uncounted v vc) { in_use_by = in_use_by }

-- For each of the seven policies that fits the occupancies, which for the dynamic policy includes room
-- for one slot for each VC and for the shifting policy room for two: a flit sent to a VC that the
-- policy does not call full, at a tail where the policy counts a packet in progress, meets no error of
-- the policy, and the policy then fits the occupancies with the flit counted.
pub sending_flit-Sound :
    (cap : ℕ) (p : Policy) (v : View) (now : ℕ) (f : Flit)
    → Sound cap v.vcs v.vc_occupancy p
    → f.vc < v.vcs
    → is_full_for p v now f.vc ≡ ok false
    → (f.tail ≡ true → HasPacket p)
    → Serves cap v.vcs (sent v.vc_occupancy f.vc) (sending_flit p (counted v f.vc) now f)
unfolding sending_flit is_full_for
sending_flit-Sound cap (private p) v now f s h full t =
    let (e, fits) = private_flit p v f s.0 h full in (private p, rw (e, ◌>>=◌), (fits, s.1))
sending_flit-Sound cap (shared p) v now f s h full t =
    let ((q, e, acc, _), _) = sending_flit-Keeps cap v.vcs v.vc_occupancy p f s h full in
    (shared q, rw (e, ◌>>=◌), acc)
sending_flit-Sound cap (limited l) v now f s h full t =
    let base_full = Limited.Flow.is_full_for-base l v f.vc full in
    let (q, acc, _, e) = sending_flit-limited cap v.vcs v.vc_occupancy l f s h base_full t in
    (
      limited
          (record l { base = q; active_vcs = if f.tail then l.active_vcs - 1 else l.active_vcs }),
      rw (e, ◌>>=◌),
      acc,
    )
sending_flit-Sound cap (dynamic l) v now f s h full t =
    let base_full = Limited.Flow.is_full_for-base l v f.vc full in
    let (q, e, d, acc) = sending_flit-dynamic cap v.vcs v.vc_occupancy l f s.1 s.0 h base_full t in
    (dynamic q, rw (e, ◌>>=◌), (acc, d))
sending_flit-Sound cap (shifting l) v now f s h full t =
    let base_full = Limited.Flow.is_full_for-base l v f.vc full in
    let (q, e, d, acc) = sending_flit-shifting cap v.vcs v.vc_occupancy l f s.1 s.0 h base_full t in
    (shifting q, rw (e, ◌>>=◌), (acc, d))
sending_flit-Sound cap (feedback p) v now f s h full t =
    let base_full = Feedback.Credits.is_full_for-base p v now f.vc full in
    let (q, e, acc, d) =
      sending_flit-IsTimed cap v.vcs v.vc_occupancy p now f s.0 s.1 h base_full in
    (feedback q, rw (e, ◌>>=◌), (acc, d))
sending_flit-Sound cap (simple_feedback p) v now f s h full t =
    let base_full = Feedback.Credits.is_full_for-base p.feedback v now f.vc full in
    let (q, e, acc, d) =
      sending_flit-HasProbe cap v.vcs v.vc_occupancy p (counted v f.vc) now f
        (p.flit_sent_time f.vc) refl s.0 s.1 refl refl h base_full in
    (simple_feedback q, rw (e, ◌>>=◌), (acc, d))

rebase :
    (k : ℕ) (l : Limited) (q : Shared)
    → q.buf_size ≡ l.buf_size
    → IsDivided k l
    → IsDivided k (record l { base = q })
rebase k l q e d = record {
  active = d.active;
  roomy = omega (arith, d.roomy, e);
  positive = d.positive;
}

limited_taken :
    (l : Limited)
    → l.active_vcs < l.vcs
    → Limited.take_buffer l ≡ ok (record l { active_vcs = l.active_vcs + 1 })
unfolding Limited.take_buffer
limited_taken l h = ground arith

-- The credit of a filled slot meets no error of the policy, and the policy then fits the
-- occupancies without the flit.
pub free_slot_for-Sound :
    (cap : ℕ) (p : Policy) (v : View) (now vc : ℕ)
    → Sound cap v.vcs v.vc_occupancy p
    → vc < v.vcs
    → 0 < v.vc_occupancy vc
    → (in_use_by : ℕ → ℤ)
    → Serves cap v.vcs
        (uncounted v vc).vc_occupancy
        (free_slot_for p (credited v vc in_use_by) now vc)
unfolding free_slot_for
free_slot_for-Sound cap (private p) v now vc s h some users =
    (private p, refl, (λ j k. ground (arith, s.0 j k), s.1))
free_slot_for-Sound cap (shared p) v now vc s h some users =
    let (q, e, acc, _) =
      free_slot_for-Keeps cap v.vcs v.vc_occupancy p (credited v vc users) vc s refl h some in
    (shared q, rw (e, ◌>>=◌), acc)
free_slot_for-Sound cap (limited l) v now vc s h some users =
    let (q, e, acc, _) =
      free_slot_for-Keeps cap v.vcs v.vc_occupancy l.base (credited v vc users) vc s refl h some in
    (limited (record l { base = q }), rw (e, ◌>>=◌), acc)
free_slot_for-Sound cap (dynamic l) v now vc s h some users =
    let (q, e, acc, same) =
      free_slot_for-Keeps cap v.vcs v.vc_occupancy l.base (credited v vc users) vc s.0 refl h
        some in
    (dynamic (record l { base = q }), rw (e, ◌>>=◌), (acc, rebase 1 l q same.buf s.1))
free_slot_for-Sound cap (shifting l) v now vc s h some users =
    let (q, e, acc, same) =
      free_slot_for-Keeps cap v.vcs v.vc_occupancy l.base (credited v vc users) vc s.0 refl h
        some in
    (shifting (record l { base = q }), rw (e, ◌>>=◌), (acc, rebase 2 l q same.buf s.1))
free_slot_for-Sound cap (feedback p) v now vc s h some users =
    let (q, e, acc, d) =
      free_slot_for-IsTimed cap v.vcs v.vc_occupancy p (credited v vc users) now vc
        (p.flit_sent_time vc) refl s.0 s.1 refl h some in
    (feedback q, rw (e, ◌>>=◌), (acc, d))
free_slot_for-Sound cap (simple_feedback p) v now vc s h some users =
    let (q, e, acc, d) =
      free_slot_for-HasProbe cap v.vcs v.vc_occupancy p (credited v vc users) now vc
        (p.pending_credits vc) (p.flit_sent_time vc) refl refl s.0 s.1 refl h some in
    (simple_feedback q, rw (e, ◌>>=◌), (acc, d))

same-Accounts :
    (cap vcs : ℕ) (occ : ℕ → ℕ) {s t : Shared}
    → t ≡ s
    → Accounts cap vcs (held occ s) s
    → Accounts cap vcs (held occ t) t
same-Accounts cap vcs occ e acc = subst (λ s. Accounts cap vcs (held occ s) s) (sym e) acc

given :
    (k : ℕ) (l m : Limited)
    → IsDivided k l
    → l.active_vcs < l.vcs
    → m.active_vcs ≡ l.active_vcs + 1
    → 0 < m.max_held_slots
    → m.vcs ≡ l.vcs
    → m.base ≡ l.base
    → IsDivided k m
given k l m d h n p v b = record {
  active = omega arith;
  roomy = ground (arith, ap (λ (t : ℕ). k * t) v, d.roomy, ap (λ (t : Shared). t.buf_size) b);
  positive = p;
}

-- A VC can be taken while the policy has one to spare: no error, and every slot stays accounted for.
pub take_buffer-Sound :
    (cap : ℕ) (p : Policy) (vcs vc : ℕ) (occ : ℕ → ℕ)
    → Sound cap vcs occ p
    → HasSpare p
    → (q : Policy) × (take_buffer p vc ≡ ok q) × Sound cap vcs occ q × HasPacket q
unfolding take_buffer
take_buffer-Sound cap (private p) vcs vc occ s h = (private p, refl, s, tt)
take_buffer-Sound cap (shared p) vcs vc occ s h = (shared p, refl, s, tt)
take_buffer-Sound cap (limited l) vcs vc occ s h = (
  limited (record l { active_vcs = l.active_vcs + 1 }),
  rw (limited_taken l h, ◌>>=◌),
  s,
  omega arith,
)
take_buffer-Sound cap (dynamic l) vcs vc occ (acc, d) h =
    let (m, e, n, _, p, v, b) = take_buffer_dynamic-IsShare l h (omega (arith, d.roomy)) in
    (
      dynamic m,
      rw (e, ◌>>=◌),
      (same-Accounts cap vcs occ b acc, given 1 l m d h n p v b),
      omega arith,
    )
take_buffer-Sound cap (shifting l) vcs vc occ (acc, d) h =
    let (m, e, n, _, p, v, b) = take_buffer_shifting-IsShare l h d.roomy in
    (
      shifting m,
      rw (e, ◌>>=◌),
      (same-Accounts cap vcs occ b acc, given 2 l m d h n p v b),
      omega arith,
    )
take_buffer-Sound cap (feedback p) vcs vc occ s h = (feedback p, refl, s, tt)
take_buffer-Sound cap (simple_feedback p) vcs vc occ s h = (simple_feedback p, refl, s, tt)

private_total :
    (cap : ℕ) (p : Private) (v : View) (vc : ℕ)
    → ((j : ℕ) → j < v.vcs → v.vc_occupancy j ≤ p.vc_buf_size)
    → v.vcs * p.vc_buf_size ≤ cap
    → vc < v.vcs
    → Private.is_full_for p v vc ≡ ok false
    → total v.vcs v.vc_occupancy < cap
unfolding Private.is_full_for
private_total cap p v vc s c h full = omega (
  arith,
  total-lt v.vcs v.vc_occupancy (λ j. p.vc_buf_size) vc s h (ground arith),
  total-const v.vcs p.vc_buf_size,
)

-- While the policy does not call some VC full, the buffer as a whole has a free slot.
pub not_full-lt :
    (cap : ℕ) (p : Policy) (v : View) (now vc : ℕ)
    → Sound cap v.vcs v.vc_occupancy p
    → vc < v.vcs
    → is_full_for p v now vc ≡ ok false
    → total v.vcs v.vc_occupancy < cap
unfolding is_full_for
not_full-lt cap (private p) v now vc s h full = private_total cap p v vc s.0 s.1 h full
not_full-lt cap (shared p) v now vc s h full = occupancy-lt cap v.vcs v.vc_occupancy p s vc h full
not_full-lt cap (limited l) v now vc s h full =
    occupancy-lt cap v.vcs v.vc_occupancy l.base s vc h (Limited.Flow.is_full_for-base l v vc full)
not_full-lt cap (dynamic l) v now vc s h full =
    occupancy-lt cap v.vcs v.vc_occupancy l.base s.0 vc h
      (Limited.Flow.is_full_for-base l v vc full)
not_full-lt cap (shifting l) v now vc s h full =
    occupancy-lt cap v.vcs v.vc_occupancy l.base s.0 vc h
      (Limited.Flow.is_full_for-base l v vc full)
not_full-lt cap (feedback p) v now vc s h full =
    occupancy-lt cap v.vcs v.vc_occupancy p.base s.0 vc h
      (Feedback.Credits.is_full_for-base p v now vc full)
not_full-lt cap (simple_feedback p) v now vc s h full =
    occupancy-lt cap v.vcs v.vc_occupancy p.base s.0 vc h
      (Feedback.Credits.is_full_for-base p.feedback v now vc full)
