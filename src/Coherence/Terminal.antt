-- ===== src/Coherence/Terminal.antt =====
-- `MESITerminalCC` of zsim/src/coherence_ctrls.h: the controller of a cache without children, whose
-- line is only a state.
use bzsim.Base.{ℕ, Bool, false, not, Outcome, ok, ◌>>=◌, ◌>>◌, check}
use bzsim.Coherence.{MesiState, InvType, AccessType, MemReq, is_invalid, is_get, add64}
use bzsim.Coherence.Bottom
use bzsim.Coherence.Bottom.{Parents, BottomConfig}
use bzsim.Coherence.Controller.{check_for_mesi_race}

-- `startAccess`: no PUT reaches a terminal cache.
unfoldable pub start_access : AccessType → MesiState → MesiState → Outcome (Bool × AccessType)
start_access type state initial_state = do
  check (is_get type)
  check_for_mesi_race type state initial_state

module _ (up : Parents) (b : BottomConfig) where
  -- `processEviction`.
  unfoldable pub process_eviction : MemReq → ℕ → MesiState → ℕ → Outcome (MesiState × ℕ)
  process_eviction req wb_line_addr own start_cycle =
      Bottom.process_eviction up b wb_line_addr own false start_cycle req.src_id

  -- `processAccess`; `found` says that `lineId` is not -1.
  unfoldable pub process_access : Bool → MemReq → MesiState → ℕ → Outcome (MesiState × ℕ)
  process_access found req own start_cycle = do
    check found
    Bottom.process_access up b req.line_addr own req.type start_cycle req.src_id req.flags
        req.noc_req

-- `processInv`.
unfoldable pub process_inv : InvType → MesiState → ℕ → Outcome (MesiState × Bool × ℕ)
process_inv type own start_cycle = do
  (own, writeback) ← Bottom.process_inval own type
  ok (own, writeback, start_cycle)

-- `Cache::finishInvalidate`. A line that the array does not have is invalid.
unfoldable pub finish_invalidate : ℕ → InvType → ℕ → ℕ → MesiState → Outcome (MesiState × Bool × ℕ)
finish_invalidate inv_lat type cycle src_id own = do
  check (not (is_invalid own))
  process_inv type own (add64 cycle inv_lat)
