-- ===== src/Coherence/Tower.antt =====
-- A line of a cache with children is a child that its parent can rely on: the interface `IsChild`
-- for `Cache::finishInvalidate` of zsim/src/cache.cpp, over any children that fill it.
use bzsim.Base.{ℕ, ◌<◌, ◌≡◌, refl, subst, sym, false, ok}
use bzsim.Coherence.{invalid, InvType, add64}
use bzsim.Coherence.Permission.{Rises-trans}
use bzsim.Coherence.Bottom.{Parents, BottomConfig}
use bzsim.Coherence.Top.{TopConfig, call_child}
use bzsim.Coherence.Top.Children.{IsChild, CanFollow, Follows, Rises}
use bzsim.Coherence.Top.Directory.{IsDirectory}
use bzsim.Coherence.Controller
use bzsim.Coherence.Controller.{Line}
use bzsim.Coherence.Node.{Includes, dirty_line, dirty_line-exclusive, finish_invalidate-Follows}

module _ {C : Type 0} (up : Parents) (b : BottomConfig) (t : TopConfig C) where
  -- A directory over caches with children that are not behind a network on chip.
  abbrev pub caches : ℕ → (ℕ → ℕ) → ℕ → TopConfig (Line C)
  caches n rtts inv_lat = record {
    children_size = n;
    children_rtts = rtts;
    num_grand_children = 0;
    non_inclusive_hack = false;
    state = λ l. l.own;
    set_state = λ state l. record l { own = state };
    call = λ c. Controller.finish_invalidate up b t inv_lat;
    call_noc = λ c. Controller.finish_invalidate up b t inv_lat;
    sync = λ src_id cycle. ok tt;
  }

  module _ (ch : IsChild t false) where
    -- A line whose directory is right and which includes its children's lines.
    abbrev pub IsRight : Line C → Type 0
    IsRight l = IsDirectory t false ch l.dir × Includes up b t ch l.own l.dir

    module _ (n : ℕ) (rtts : ℕ → ℕ) (inv_lat : ℕ) where
      -- An invalidation from the parent, with the round trip to the parent.
      pub follow :
          (type : InvType) (c cycle src_id : ℕ) (l : Line C)
          → IsRight l
          → CanFollow type l.own
          → (l' : Line C) × (resp : ℕ) × (call_child
                (caches n rtts inv_lat)
                false
                c
                type
                cycle
                src_id
                l
              ≡ ok (l', dirty_line up b t ch l, resp))
            × IsRight l'
            × Follows type l.own l'.own
            × (dirty_line up b t ch l' ≡ false)
      unfolding call_child
      follow type c cycle src_id l (g, i) can =
          let (l', resp, run, g', i', follows, clean) =
            finish_invalidate-Follows up b t ch type inv_lat cycle src_id l g i can in
          (l', add64 resp (rtts c), rw (run) refl, (g', i'), follows, clean)

      -- The line as its parent relies on it. Its own children have no copy where it is idle.
      abbrev pub cache_child : IsChild (caches n rtts inv_lat) false
      cache_child = record {
        Ok = IsRight;
        Idle = λ l. (i : ℕ) → i < t.children_size → t.state (l.dir.kids i) ≡ invalid;
        dirty = dirty_line up b t ch;
        follow = follow;
        dirty_exclusive = λ l ok. dirty_line-exclusive up b t ch l ok.0 ok.1;
        state_set = λ state l. refl;
        raise = λ state l ok r.
            (ok.0, λ i p. Rises-trans (t.state (l.dir.kids i)) l.own state (ok.1 i p) r);
        give_up = λ l ok idle. (ok.0, λ i p. subst (λ s. Rises s invalid) (sym (idle i p)) tt);
        synced = λ src_id cycle. refl;
      }
