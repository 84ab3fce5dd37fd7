-- ===== src/Coherence/Top/Children.antt =====
-- What a cache relies on in its children, whatever they are: an invalidation that is sent to a
-- child that can follow it succeeds, and says whether modified data comes back.
use bzsim.Base.{ℕ, ◌≡◌, Bool, true, false, ok}
use bzsim.Coherence.{MesiState, invalid, shared, InvType, inv, invx, fwd, is_invalid, has_exclusive}
use bzsim.Coherence.Top.{TopConfig, call_child}

-- The child can follow the invalidation.
abbrev pub CanFollow : InvType → MesiState → Type 0
CanFollow inv state = is_invalid state ≡ false
CanFollow invx state = has_exclusive state ≡ true
CanFollow fwd state = true ≡ false

-- What it leads to: no copy is left, or no exclusive one and none is lost.
abbrev pub Follows : InvType → MesiState → MesiState → Type 0
Follows inv old new = new ≡ invalid
Follows invx old new = (is_invalid new ≡ is_invalid old) × (has_exclusive new ≡ false)
Follows fwd old new = new ≡ old

-- More permission, or the same.
abbrev pub Rises : MesiState → MesiState → Type 0
Rises invalid new = Unit
Rises shared new = is_invalid new ≡ false
Rises old new = has_exclusive new ≡ true

-- `Ok` holds for a line that a child may have, `dirty` says that modified data is somewhere below,
-- and `Idle` that the child's own children have no copy.
pub record IsChild {C : Type 0} (t : TopConfig C) (noc_req : Bool) : Type 1 where
  pub Ok : C → Type 0
  pub Idle : C → Type 0
  pub dirty : C → Bool
  pub follow :
      (type : InvType) (c cycle src_id : ℕ) (kid : C)
      → Ok kid
      → CanFollow type (t.state kid)
      → (kid' : C) × (resp : ℕ) × (call_child t noc_req c type cycle src_id kid
          ≡ ok (kid', dirty kid, resp))
        × Ok kid'
        × Follows type (t.state kid) (t.state kid')
        × (dirty kid' ≡ false)
  pub dirty_exclusive : (kid : C) → Ok kid → dirty kid ≡ true → has_exclusive (t.state kid) ≡ true
  pub state_set : (state : MesiState) (kid : C) → t.state (t.set_state state kid) ≡ state
  pub raise :
      (state : MesiState) (kid : C)
      → Ok kid
      → Rises (t.state kid) state
      → Ok (t.set_state state kid)
  pub give_up : (kid : C) → Ok kid → Idle kid → Ok (t.set_state invalid kid)
  pub synced : (src_id cycle : ℕ) → t.sync src_id cycle ≡ ok tt
