-- ===== src/BufferPolicy/Shared/Slots.antt =====
-- One slot freed or taken keeps the accounts, and does not fail.
use bzsim.Base.{ℕ, ◌+◌, ◌-◌, ◌<◌, ◌≡◌, ◌⊎◌, pos, update, ok, arith}
use bzsim.BufferPolicy.Shared.{Shared, process_free_slot, take_slot}
use bzsim.BufferPolicy.Shared.Account.{
  Accounts, group_mapped, freed, taken, held-le, excess-le, share-change, excess-change,
}

module _ (cap vcs : ℕ) (held : ℕ → ℕ) (s : Shared) (acc : Accounts cap vcs held s) (v i : ℕ)
    (h : v < vcs) (e : s.private_buf_vc_map v ≡ pos i) (g : i < s.groups) where
  pub process_free_slot-freed : 0 < held v → process_free_slot s v ≡ ok (freed s i)
  unfolding process_free_slot
  process_free_slot-freed p = ground (
    arith,
    group_mapped s v i e g,
    held-le cap vcs held s acc v i h e,
    excess-le cap vcs held s acc v i g,
  )

  pub freed-Accounts : 0 < held v → Accounts cap vcs (update held v (held v - 1)) (freed s i)
  freed-Accounts p = record {
    mapped = acc.mapped;
    private = λ k. ground (
      arith,
      share-change cap vcs held s acc v i h e (held v - 1) k,
      held-le cap vcs held s acc v i h e,
    );
    pool = ground (
      arith,
      excess-change cap vcs held s acc v i g (s.private_buf_occupancy i - 1),
      held-le cap vcs held s acc v i h e,
    );
    fits = omega (arith, acc.fits);
    capacity = acc.capacity;
  }

  pub take_slot-taken :
      ((s.private_buf_occupancy i < s.private_buf_size i)
        ⊎ (s.shared_buf_occupancy < s.shared_buf_size))
      → take_slot s v ≡ ok (taken s i)
  unfolding take_slot
  take_slot-taken p = ground (arith, group_mapped s v i e g)

  pub taken-Accounts :
      ((s.private_buf_occupancy i < s.private_buf_size i)
        ⊎ (s.shared_buf_occupancy < s.shared_buf_size))
      → Accounts cap vcs (update held v (held v + 1)) (taken s i)
  taken-Accounts p = record {
    mapped = acc.mapped;
    private = λ k. ground (arith, share-change cap vcs held s acc v i h e (held v + 1) k);
    pool = ground (arith, excess-change cap vcs held s acc v i g (s.private_buf_occupancy i + 1));
    fits = ground (arith, acc.fits);
    capacity = acc.capacity;
  }
