-- ===== src/BufferPolicy/Shared/Capacity.antt =====
-- A VC that is not full means that the buffer as a whole is not.
use bzsim.Base.{
  ℕ, ◌+◌, ◌≤◌, ◌<◌, ◌≡◌, ◌⊎◌, inl, inr, sym, ◌∙◌, pos, false, ok, arith, total, total-ext,
  total-add, total-swap, total_mono, total-lt, total-single, le-total,
}
use bzsim.BufferPolicy.Shared.{Shared, is_full_for}
use bzsim.BufferPolicy.Shared.Account.{Accounts, share, excess, group_mapped}
use bzsim.BufferPolicy.Shared.Flow.{held}

module _ (cap vcs : ℕ) (occ : ℕ → ℕ) (s : Shared) (acc : Accounts cap vcs (held occ s) s) where
  -- Every slot in use belongs to one group.
  held-total : total vcs (held occ s) ≡ total s.groups s.private_buf_occupancy
  held-total =
      total-ext vcs (held occ s) (λ v. total s.groups (λ i. share s (held occ s) i v)) one_group
      ∙ sym (total-swap s.groups vcs (share s (held occ s)))
      ∙ total-ext s.groups _ _ (λ i h. sym (acc.private i))
    where
      one_group : (v : ℕ) → v < vcs → held occ s v ≡ total s.groups (λ i. share s (held occ s) i v)
      one_group v h =
          let (k, e, g) = acc.mapped v h in
          sym (
            total-single s.groups (λ i. share s (held occ s) i v) k g (λ i ne. ground arith)
            ∙ ground arith)

  within : (i : ℕ) → s.private_buf_occupancy i ≤ s.private_buf_size i + excess s i
  within i = omega arith

  reserved-le : (v : ℕ) → v < vcs → total vcs occ + s.reserved_slots v ≤ total vcs (held occ s)
  reserved-le v h =
      omega (arith, total-add vcs occ s.reserved_slots, le-total vcs s.reserved_slots v h)

  in_groups :
      total s.groups s.private_buf_occupancy
      ≤ total s.groups s.private_buf_size + s.shared_buf_occupancy
  in_groups = omega (
    arith,
    total_mono s.groups s.private_buf_occupancy (λ i. s.private_buf_size i + excess s i)
        (λ i h. within i),
    total-add s.groups s.private_buf_size (excess s),
    acc.pool,
  )

  in_groups_lt :
      (i : ℕ)
      → i < s.groups
      → s.private_buf_occupancy i < s.private_buf_size i
      → total s.groups s.private_buf_occupancy
        < total s.groups s.private_buf_size + s.shared_buf_occupancy
  in_groups_lt i g p = omega (
    arith,
    total-lt s.groups s.private_buf_occupancy (λ i. s.private_buf_size i + excess s i) i
        (λ i h. within i) g (omega arith),
    total-add s.groups s.private_buf_size (excess s),
    acc.pool,
  )

  room :
      (v i : ℕ)
      → s.private_buf_vc_map v ≡ pos i
      → i < s.groups
      → is_full_for s v ≡ ok false
      → (0 < s.reserved_slots v)
        ⊎ (s.private_buf_occupancy i < s.private_buf_size i)
        ⊎ (s.shared_buf_occupancy < s.shared_buf_size)
  unfolding is_full_for
  room v i m g full = ground (arith, group_mapped s v i m g)

  -- While some VC is not full, fewer slots are filled than there are.
  pub occupancy-lt : (v : ℕ) → v < vcs → is_full_for s v ≡ ok false → total vcs occ < cap
  occupancy-lt v h full =
      let (i, m, g) = acc.mapped v h in
      elim (room v i m g full) [
        | inl kept ↦ omega (arith, acc.fits, acc.capacity, held-total, reserved-le v h, in_groups)
        | inr (inl own) ↦
            omega (arith, acc.fits, acc.capacity, held-total, reserved-le v h, in_groups_lt i g own)
        | inr (inr pool) ↦ omega (arith, acc.capacity, held-total, reserved-le v h, in_groups)
      ]
