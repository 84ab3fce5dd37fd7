-- ===== src/Coherence/Leaf.antt =====
-- A line of a terminal cache is a child that its parent can rely on.
use bzsim.Base.{ℕ, ◌≡◌, refl, true, false, ok}
use bzsim.Coherence.{
  MesiState, invalid, shared, exclusive, modified, InvType, inv, invx, fwd, has_exclusive,
  is_modified, add64,
}
use bzsim.Coherence.Bottom
use bzsim.Coherence.Terminal
use bzsim.Coherence.Top.{TopConfig, call_child}
use bzsim.Coherence.Top.Children.{IsChild, CanFollow, Follows}

-- A directory over terminal caches that are not behind a network on chip.
abbrev pub leaves : ℕ → (ℕ → ℕ) → ℕ → TopConfig MesiState
leaves n rtts inv_lat = record {
  children_size = n;
  children_rtts = rtts;
  num_grand_children = 0;
  non_inclusive_hack = false;
  state = λ own. own;
  set_state = λ state own. state;
  call = λ c. Terminal.finish_invalidate inv_lat;
  call_noc = λ c. Terminal.finish_invalidate inv_lat;
  sync = λ src_id cycle. ok tt;
}

module _ (n : ℕ) (rtts : ℕ → ℕ) (inv_lat : ℕ) where
  pub follow :
      (type : InvType) (c cycle src_id : ℕ) (own : MesiState)
      → Unit {0}
      → CanFollow type own
      → (own' : MesiState) × (resp : ℕ) × (call_child
            (leaves n rtts inv_lat)
            false
            c
            type
            cycle
            src_id
            own
          ≡ ok (own', is_modified own, resp))
        × Unit {0}
        × Follows type own own'
        × (is_modified own' ≡ false)
  unfolding call_child Terminal.finish_invalidate Terminal.process_inv Bottom.process_inval
  follow inv c cycle src_id own u can =
      (invalid, add64 (add64 cycle inv_lat) (rtts c), rw (can) refl, tt, refl, refl)
  follow invx c cycle src_id exclusive u can =
      (shared, add64 (add64 cycle inv_lat) (rtts c), refl, tt, (refl, refl), refl)
  follow invx c cycle src_id modified u can =
      (shared, add64 (add64 cycle inv_lat) (rtts c), refl, tt, (refl, refl), refl)
  follow invx c cycle src_id own u can = cc
  follow fwd c cycle src_id own u can = cc

  pub owned : (own : MesiState) → Unit {0} → is_modified own ≡ true → has_exclusive own ≡ true
  owned modified u h = refl
  owned own u h = cc

  abbrev pub leaf_child : IsChild (leaves n rtts inv_lat) false
  leaf_child = record {
    Ok = λ own. Unit;
    Idle = λ own. Unit;
    dirty = is_modified;
    follow = follow;
    dirty_exclusive = owned;
    state_set = λ state own. refl;
    raise = λ state own u r. tt;
    give_up = λ own u i. tt;
    synced = λ src_id cycle. refl;
  }
