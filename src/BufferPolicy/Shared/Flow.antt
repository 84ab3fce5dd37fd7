-- ===== src/BufferPolicy/Shared/Flow.antt =====
-- Sending a flit to a VC that is not full, and taking a credit back, keep the accounts of the
-- shared policy and never meet one of its errors.
use bzsim.Base.{
  ℕ, zero, suc, ◌+◌, ◌-◌, ◌<◌, ◌≡◌, ◌⊎◌, ◌∙◌, inl, inr, refl, subst, fun_ext, pos, true, false, not,
  ◌&&◌, ◌==◌, update, Outcome, ok, ◌>>=◌, arith, Bool-cases, is_negative,
}
use bzsim.Flit.{Flit}
use bzsim.BufferPolicy.View.{View, is_empty_for, is_available_for}
use bzsim.BufferPolicy.Shared.{
  Shared, process_free_slot, use_slot, release_reserved, sending_flit, free_slot_for, is_full_for,
  reserve,
}
use bzsim.BufferPolicy.Shared.Account.{Accounts, group_mapped, freed, taken}
use bzsim.BufferPolicy.Shared.Slots.{
  process_free_slot-freed, freed-Accounts, take_slot-taken, taken-Accounts,
}

-- Slots held under the occupancies `occ`: those filled, and those kept for the packet.
abbrev pub held : (ℕ → ℕ) → Shared → ℕ → ℕ
held occ s v = occ v + s.reserved_slots v

-- What no operation changes.
pub record SameConfig (s t : Shared) : Type 0 where
  pub groups : t.groups ≡ s.groups
  pub map : t.private_buf_vc_map ≡ s.private_buf_vc_map
  pub size : t.private_buf_size ≡ s.private_buf_size
  pub pool : t.shared_buf_size ≡ s.shared_buf_size
  pub buf : t.buf_size ≡ s.buf_size

-- The call succeeds, and its result keeps the accounts of the occupancies `occ`.
abbrev pub Keeps : ℕ → ℕ → (ℕ → ℕ) → Shared → Outcome Shared → Type 0
Keeps cap vcs occ s m = (t : Shared) × (m ≡ ok t) × Accounts cap vcs (held occ t) t × SameConfig s t

SameConfig-refl : (s : Shared) → SameConfig s s
SameConfig-refl s = record { groups = refl; map = refl; size = refl; pool = refl; buf = refl }

SameConfig-trans : {s t u : Shared} → SameConfig s t → SameConfig t u → SameConfig s u
SameConfig-trans a b = record {
  groups = b.groups ∙ a.groups;
  map = b.map ∙ a.map;
  size = b.size ∙ a.size;
  pool = b.pool ∙ a.pool;
  buf = b.buf ∙ a.buf;
}

Accounts-ext :
    {cap vcs : ℕ} {f g : ℕ → ℕ} {s : Shared}
    → Accounts cap vcs f s
    → ((v : ℕ) → f v ≡ g v)
    → Accounts cap vcs g s
Accounts-ext {cap} {vcs} {s = s} acc e = subst (λ f. Accounts cap vcs f s) (fun_ext e) acc

-- The accounts do not depend on what is reserved.
with_reserved :
    {cap vcs : ℕ} {f : ℕ → ℕ} {s : Shared} (r : ℕ → ℕ)
    → Accounts cap vcs f s
    → Accounts cap vcs f (record s { reserved_slots = r })
with_reserved r acc = record {
  mapped = acc.mapped;
  private = acc.private;
  pool = acc.pool;
  fits = acc.fits;
  capacity = acc.capacity;
}

-- A slot freed by VC `v`, which holds one.
free_one :
    (cap vcs : ℕ) (occ f : ℕ → ℕ) (s : Shared) (v : ℕ)
    → Accounts cap vcs f s
    → v < vcs
    → 0 < f v
    → ((j : ℕ) → update f v (f v - 1) j ≡ held occ s j)
    → (k : Keeps cap vcs occ s (process_free_slot s v)) × (k.0.reserved_slots ≡ s.reserved_slots)
free_one cap vcs occ f s v acc h p e =
    let (i, m, g) = acc.mapped v h in
    (
      (
        freed s i,
        process_free_slot-freed cap vcs f s acc v i h m g p,
        Accounts-ext (freed-Accounts cap vcs f s acc v i h m g p) e,
        record { groups = refl; map = refl; size = refl; pool = refl; buf = refl },
      ),
      refl,
    )

-- The loop at a tail flit gives back all that was reserved.
release_reserved-Keeps :
    (n cap vcs : ℕ) (occ : ℕ → ℕ) (s : Shared) (v : ℕ)
    → s.reserved_slots v ≡ n
    → Accounts cap vcs (held occ s) s
    → v < vcs
    → (k : Keeps cap vcs occ s (release_reserved n s v)) × (k.0.reserved_slots v ≡ 0)
unfolding release_reserved
release_reserved-Keeps zero cap vcs occ s v r acc h = ((s, refl, acc, SameConfig-refl s), r)
release_reserved-Keeps (suc n) cap vcs occ s v r acc h =
    let r' : ℕ → ℕ = update s.reserved_slots v n in
    let ((u, e, acc', same), kept) =
      free_one cap vcs occ (held occ s) (record s { reserved_slots = r' }) v (with_reserved r' acc)
        h (omega (arith, r)) (λ j. ground (arith, r)) in
    let left : u.reserved_slots v ≡ n = rw kept (ground arith) in
    let ((w, e', acc'', same'), none_left) = release_reserved-Keeps n cap vcs occ u v left acc' h in
    (
      (
        w,
        rw (e, ◌>>=◌) e',
        acc'',
        SameConfig-trans
            (record {
              groups = same.groups;
              map = same.map;
              size = same.size;
              pool = same.pool;
              buf = same.buf;
            })
            same',
      ),
      none_left,
    )

-- A VC that is not full has a reserved slot, a private one or one in the pool.
has_room :
    (s : Shared) (v i : ℕ)
    → s.private_buf_vc_map v ≡ pos i
    → i < s.groups
    → is_full_for s v ≡ ok false
    → s.reserved_slots v ≡ 0
    → (s.private_buf_occupancy i < s.private_buf_size i)
      ⊎ (s.shared_buf_occupancy < s.shared_buf_size)
unfolding is_full_for
has_room s v i m g full r = ground (arith, group_mapped s v i m g)

abbrev pub sent : (ℕ → ℕ) → ℕ → ℕ → ℕ
sent occ v = update occ v (occ v + 1)

use_slot-Keeps :
    (n cap vcs : ℕ) (occ : ℕ → ℕ) (s : Shared) (v : ℕ)
    → s.reserved_slots v ≡ n
    → Accounts cap vcs (held occ s) s
    → v < vcs
    → is_full_for s v ≡ ok false
    → Keeps cap vcs (sent occ v) s (use_slot s v)
unfolding use_slot
use_slot-Keeps zero cap vcs occ s v r acc h full =
    let (i, m, g) = acc.mapped v h in
    let room = has_room s v i m g full r in
    (
      taken s i,
      rw (r, use_slot) (take_slot-taken cap vcs (held occ s) s acc v i h m g room),
      Accounts-ext (taken-Accounts cap vcs (held occ s) s acc v i h m g room) (λ j. ground arith),
      record { groups = refl; map = refl; size = refl; pool = refl; buf = refl },
    )
use_slot-Keeps (suc n) cap vcs occ s v r acc h full =
    let r' : ℕ → ℕ = update s.reserved_slots v n in
    (
      record s { reserved_slots = r' },
      rw (r, use_slot),
      Accounts-ext (with_reserved r' acc) (λ j. ground (arith, r)),
      record { groups = refl; map = refl; size = refl; pool = refl; buf = refl },
    )

-- A flit sent to a VC that is not full meets no error, and the accounts then count it. A tail flit
-- leaves nothing reserved for its VC.
pub sending_flit-Keeps :
    (cap vcs : ℕ) (occ : ℕ → ℕ) (s : Shared) (f : Flit)
    → Accounts cap vcs (held occ s) s
    → f.vc < vcs
    → is_full_for s f.vc ≡ ok false
    → (k : Keeps cap vcs (sent occ f.vc) s (sending_flit s f)) × (f.tail ≡ true
        → k.0.reserved_slots f.vc ≡ 0)
unfolding sending_flit
sending_flit-Keeps cap vcs occ s f acc h full =
    let (t, e, acc', same) =
      use_slot-Keeps (s.reserved_slots f.vc) cap vcs occ s f.vc refl acc h full in
    elim (Bool-cases f.tail) [
      | inl tail ↦
          let ((u, e', acc'', same'), left) =
            release_reserved-Keeps (t.reserved_slots f.vc) cap vcs (sent occ f.vc) t f.vc refl acc'
              h in
          ((u, rw (e, ◌>>=◌, tail) e', acc'', SameConfig-trans same same'), λ _. left)
      | inr body ↦ ((t, rw (e, ◌>>=◌, body), acc', same), λ tail. cc)
    ]

-- The credit of a filled slot is taken back without error, whether the slot is freed or kept.
pub free_slot_for-Keeps :
    (cap vcs : ℕ) (occ : ℕ → ℕ) (s : Shared) (view : View) (v : ℕ)
    → Accounts cap vcs (held occ s) s
    → view.vcs ≡ vcs
    → v < vcs
    → 0 < occ v
    → Keeps cap vcs (update occ v (occ v - 1)) s (free_slot_for s view v)
unfolding free_slot_for is_available_for is_empty_for
free_slot_for-Keeps cap vcs occ s view v acc e h p =
    elim (Bool-cases (not (is_negative (view.in_use_by v)) && (view.vc_occupancy v == 0))) [
      | inl keep ↦ (
        reserve s v,
        ground arith,
        Accounts-ext (with_reserved (reserve s v).reserved_slots acc) (λ j. ground arith),
        record { groups = refl; map = refl; size = refl; pool = refl; buf = refl },
      )
      | inr free ↦
          let ((t, e', acc', same), _) =
            free_one cap vcs (update occ v (occ v - 1)) (held occ s) s v acc h (omega arith)
              (λ j. ground arith) in
          (t, ground arith, acc', same)
    ]
