-- ===== src/BufferPolicy/Shared/Account.antt =====
-- The accounts of the shared buffer policy: every slot in use belongs to one VC.
use bzsim.Base.{
  ℕ, ◌+◌, ◌-◌, ◌≤◌, ◌<◌, ◌≡◌, pos, negsuc, bit, ltb, leb, ◌==◌, if◌then◌else◌, update, total,
  total-change, le-total, ok, arith, zero, suc, ap,
}
use bzsim.BufferPolicy.Shared.{Shared, group, decrement}

-- Slots that VC `v` holds, if its group is `i`.
abbrev pub share : Shared → (ℕ → ℕ) → ℕ → ℕ → ℕ
share s held i v = elim (s.private_buf_vc_map v) [
  | pos k ↦ if k == i then held v else 0
  | negsuc k ↦ 0
]

-- Slots of group `i` that are in use beyond its private ones.
abbrev pub excess : Shared → ℕ → ℕ
excess s i = s.private_buf_occupancy i - s.private_buf_size i

-- `held v` is the number of slots that VC `v` holds, filled or reserved.
pub record Accounts (cap vcs : ℕ) (held : ℕ → ℕ) (s : Shared) : Type 0 where
  pub mapped : (v : ℕ) → v < vcs → (i : ℕ) × (s.private_buf_vc_map v ≡ pos i) × (i < s.groups)
  pub private : (i : ℕ) → s.private_buf_occupancy i ≡ total vcs (share s held i)
  pub pool : s.shared_buf_occupancy ≡ total s.groups (excess s)
  pub fits : s.shared_buf_occupancy ≤ s.shared_buf_size
  pub capacity : total s.groups s.private_buf_size + s.shared_buf_size ≤ cap

pub group_mapped :
    (s : Shared) (v i : ℕ) → s.private_buf_vc_map v ≡ pos i → i < s.groups → group s v ≡ ok i
unfolding group
group_mapped s v i e h = ground arith

-- The state after a slot of group `i` is freed, or taken.
abbrev pub freed : Shared → ℕ → Shared
freed s i = record s {
  private_buf_occupancy = update s.private_buf_occupancy i (s.private_buf_occupancy i - 1);
  shared_buf_occupancy =
      s.shared_buf_occupancy - bit (leb (s.private_buf_size i) (s.private_buf_occupancy i - 1));
}

abbrev pub taken : Shared → ℕ → Shared
taken s i = record s {
  private_buf_occupancy = update s.private_buf_occupancy i (s.private_buf_occupancy i + 1);
  shared_buf_occupancy =
      s.shared_buf_occupancy + bit (ltb (s.private_buf_size i) (s.private_buf_occupancy i + 1));
}

module _ (cap vcs : ℕ) (held : ℕ → ℕ) (s : Shared) (acc : Accounts cap vcs held s) (v i : ℕ) where
  -- What one VC holds is counted in its group.
  pub held-le : v < vcs → s.private_buf_vc_map v ≡ pos i → held v ≤ s.private_buf_occupancy i
  held-le h e = ground (arith, acc.private i, le-total vcs (share s held i) v h)

  pub excess-le : i < s.groups → excess s i ≤ s.shared_buf_occupancy
  excess-le h = omega (arith, acc.pool, le-total s.groups (excess s) i h)

  -- The new amount of `v` changes the sum of its group and of no other.
  pub share-change :
      v < vcs
      → s.private_buf_vc_map v ≡ pos i
      → (n k : ℕ)
      → total vcs (share s (update held v n) k) + (if i == k then held v else 0)
        ≡ s.private_buf_occupancy k + (if i == k then n else 0)
  share-change h e n k = ground (
    arith,
    acc.private k,
    total-change vcs (share s held k) (share s (update held v n) k) v h (λ j ne. ground arith),
  )

  -- A new occupancy of group `i` changes the pool by the change of its excess.
  pub excess-change :
      i < s.groups
      → (n : ℕ)
      → total s.groups
            (excess (record s { private_buf_occupancy = update s.private_buf_occupancy i n }))
          + (s.private_buf_occupancy i - s.private_buf_size i)
        ≡ s.shared_buf_occupancy + (n - s.private_buf_size i)
  excess-change h n = ground (
    arith,
    acc.pool,
    total-change s.groups (excess s)
        (excess (record s { private_buf_occupancy = update s.private_buf_occupancy i n })) i h
        (λ j ne. ground arith),
  )

pub decrement_pos : (n : ℕ) → 0 < n → decrement n ≡ ok (n - 1)
decrement_pos zero h = absurd (omega arith)
decrement_pos (suc n) h = ap ok (omega arith)
