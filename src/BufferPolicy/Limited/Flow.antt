-- ===== src/BufferPolicy/Limited/Flow.antt =====
-- The limited policies keep the accounts of the shared one, and their own counts.
use bzsim.Base.{
  ℕ, ◌-◌, ◌*◌, ◌≤◌, ◌<◌, ◌≡◌, inl, inr, refl, sym, subst, Bool, true, false, if◌then◌else◌, ltb,
  ◌&&◌, Outcome, ok, ◌>>=◌, arith, Bool-cases,
}
use bzsim.Flit.{Flit}
use bzsim.BufferPolicy.View.{View}
use bzsim.BufferPolicy.Shared
use bzsim.BufferPolicy.Shared.{Shared}
use bzsim.BufferPolicy.Shared.Account.{Accounts, decrement_pos}
use bzsim.BufferPolicy.Shared.Flow.{held, sent, SameConfig, sending_flit-Keeps}
use bzsim.BufferPolicy.Limited.{
  Limited, sending_flit, end_packet, is_full_for, sending_flit_dynamic, sending_flit_shifting,
  divide, shift, check_limit,
}
use bzsim.BufferPolicy.Limited.Limits.{div-pos, shift_pos}

-- What the dynamic policy keeps, where `k` is 1, and the shifting policy, where it is 2.
pub record IsDivided (k : ℕ) (l : Limited) : Type 0 where
  pub active : l.active_vcs ≤ l.vcs
  pub roomy : k * l.vcs ≤ l.buf_size
  pub positive : 0 < l.max_held_slots

-- A VC below the limit of its own is not full for the shared policy either.
pub is_full_for-base :
    (l : Limited) (v : View) (vc : ℕ)
    → is_full_for l v vc ≡ ok false
    → Shared.is_full_for l.base vc ≡ ok false
unfolding is_full_for
is_full_for-base l v vc h = go (Shared.is_full_for l.base vc) refl
  where
    go :
        (m : Outcome Bool)
        → Shared.is_full_for l.base vc ≡ m
        → Shared.is_full_for l.base vc ≡ ok false
    go m e = ground arith

-- The limited policy's `SendingFlit`: the accounts, and one active VC fewer after a tail.
pub sending_flit-limited :
    (cap vcs : ℕ) (occ : ℕ → ℕ) (l : Limited) (f : Flit)
    → Accounts cap vcs (held occ l.base) l.base
    → f.vc < vcs
    → Shared.is_full_for l.base f.vc ≡ ok false
    → (f.tail ≡ true → 0 < l.active_vcs)
    → (s : Shared) × Accounts cap vcs (held (sent occ f.vc) s) s
      × SameConfig l.base s
      × (sending_flit l f
          ≡ ok (record l {
            base = s;
            active_vcs = if f.tail then l.active_vcs - 1 else l.active_vcs;
          }))
unfolding sending_flit
sending_flit-limited cap vcs occ l f acc h full tail =
    let ((s, e, acc', same), _) = sending_flit-Keeps cap vcs occ l.base f acc h full in
    (s, acc', same, rw (e, ◌>>=◌) (ended l s f.tail tail))
  where
    ended :
        (l : Limited) (s : Shared) (b : Bool)
        → (b ≡ true → 0 < l.active_vcs)
        → end_packet (record l { base = s }) b
          ≡ ok (record l { base = s; active_vcs = if b then l.active_vcs - 1 else l.active_vcs })
    ended l s true tail = rw (decrement_pos l.active_vcs (tail refl), ◌>>=◌) refl
    ended l s false tail = refl

-- How the dynamic policies' `SendingFlit`s end: `g` sets the new limit.
new_limit : (Limited → Limited) → Flit → Limited → Outcome Limited
new_limit g f m = check_limit (if (f.tail && ltb 0 m.active_vcs) then g m else m)

new_limit-IsDivided :
    (k : ℕ) (g : Limited → Limited) (m : Limited) (f : Flit)
    → IsDivided k m
    → (0 < m.active_vcs → IsDivided k (g m) × ((g m).base ≡ m.base))
    → (n : Limited) × (new_limit g f m ≡ ok n) × IsDivided k n × (n.base ≡ m.base)
unfolding new_limit check_limit
new_limit-IsDivided k g m f d h = elim (Bool-cases (f.tail && ltb 0 m.active_vcs)) [
  | inl again ↦
      let (d', b) = h (ground arith) in (g m, rw again (ground (arith, d'.positive)), d', b)
  | inr same ↦ (m, rw same (ground (arith, d.positive)), d, refl)
]

divide-IsDivided :
    (m : Limited)
    → IsDivided 1 m
    → 0 < m.active_vcs
    → IsDivided 1 (divide m) × ((divide m).base ≡ m.base)
unfolding divide
divide-IsDivided m d h = (
  record {
    active = d.active;
    roomy = d.roomy;
    positive = div-pos m.buf_size m.active_vcs h (omega (arith, d.active, d.roomy));
  },
  refl,
)

shift-IsDivided :
    (m : Limited)
    → IsDivided 2 m
    → 0 < m.active_vcs
    → IsDivided 2 (shift m) × ((shift m).base ≡ m.base)
unfolding shift
shift-IsDivided m d h = (
  record {
    active = d.active;
    roomy = d.roomy;
    positive = shift_pos m (omega (arith, d.active, d.roomy)) (omega (arith, d.active, d.roomy));
  },
  refl,
)

-- A limited policy after a flit was sent.
abbrev pub FlitSent : ℕ → ℕ → ℕ → (ℕ → ℕ) → Outcome Limited → Type 0
FlitSent k cap vcs occ o =
    (n : Limited) × (o ≡ ok n) × IsDivided k n × Accounts cap vcs (held occ n.base) n.base

divided_flit :
    (k cap vcs : ℕ) (g : Limited → Limited) (occ : ℕ → ℕ) (l : Limited) (f : Flit)
    → IsDivided k l
    → Accounts cap vcs (held occ l.base) l.base
    → f.vc < vcs
    → Shared.is_full_for l.base f.vc ≡ ok false
    → (f.tail ≡ true → 0 < l.active_vcs)
    → ((m : Limited) → IsDivided k m → 0 < m.active_vcs → IsDivided k (g m) × ((g m).base ≡ m.base))
    → FlitSent k cap vcs (sent occ f.vc) (sending_flit l f >>= new_limit g f)
divided_flit k cap vcs g occ l f d acc h full tail limits =
    let (s, acc', same, e) = sending_flit-limited cap vcs occ l f acc h full tail in
    let m : Limited = record l {
      base = s;
      active_vcs = if f.tail then l.active_vcs - 1 else l.active_vcs;
    } in
    let d' : IsDivided k m = record {
      active = ground (arith, d.active);
      roomy = omega (arith, d.roomy, same.buf);
      positive = d.positive;
    } in
    let (n, e', d'', b) = new_limit-IsDivided k g m f d' (limits m d') in
    (
      n,
      rw (e, ◌>>=◌) e',
      d'',
      subst (λ t. Accounts cap vcs (held (sent occ f.vc) t) t) (sym b) acc',
    )

pub sending_flit-dynamic :
    (cap vcs : ℕ) (occ : ℕ → ℕ) (l : Limited) (f : Flit)
    → IsDivided 1 l
    → Accounts cap vcs (held occ l.base) l.base
    → f.vc < vcs
    → Shared.is_full_for l.base f.vc ≡ ok false
    → (f.tail ≡ true → 0 < l.active_vcs)
    → FlitSent 1 cap vcs (sent occ f.vc) (sending_flit_dynamic l f)
unfolding sending_flit_dynamic new_limit
sending_flit-dynamic cap vcs occ l f d acc h full tail =
    divided_flit 1 cap vcs divide occ l f d acc h full tail divide-IsDivided

pub sending_flit-shifting :
    (cap vcs : ℕ) (occ : ℕ → ℕ) (l : Limited) (f : Flit)
    → IsDivided 2 l
    → Accounts cap vcs (held occ l.base) l.base
    → f.vc < vcs
    → Shared.is_full_for l.base f.vc ≡ ok false
    → (f.tail ≡ true → 0 < l.active_vcs)
    → FlitSent 2 cap vcs (sent occ f.vc) (sending_flit_shifting l f)
unfolding sending_flit_shifting new_limit
sending_flit-shifting cap vcs occ l f d acc h full tail =
    divided_flit 2 cap vcs shift occ l f d acc h full tail shift-IsDivided
