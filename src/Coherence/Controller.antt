-- ===== src/Coherence/Controller.antt =====
-- `MESICC` and `CheckForMESIRace` of zsim/src/coherence_ctrls.h: the controller of a cache that has
-- children; and the calls that `Cache` of zsim/src/cache.cpp makes to it for one request. The timing
-- records of requests are left out.
use bzsim.Base.{
  ℕ, Bool, true, false, not, ◌&&◌, ◌||◌, if◌then◌else◌, Outcome, ok, stop, ◌>>=◌, ◌>>◌, check,
  error_if, leb,
}
use bzsim.Base.Fault.{error}
use bzsim.Coherence.{
  MesiState, invalid, shared, exclusive, modified, AccessType, gets, getx, puts, putx, InvType,
  Flags, MemReq, is_invalid, is_shared, has_exclusive, is_get, is_put, add64,
}
use bzsim.Coherence.Bottom
use bzsim.Coherence.Bottom.{Parents, BottomConfig}
use bzsim.Coherence.Top
use bzsim.Coherence.Top.{TopConfig, Dir, Entry}

abbrev pub is_putx : AccessType → Bool
is_putx putx = true
is_putx type = false

abbrev pub is_gets : AccessType → Bool
is_gets gets = true
is_gets type = false

-- `*state == initialState`.
abbrev pub same_state : MesiState → MesiState → Bool
same_state invalid invalid = true
same_state shared shared = true
same_state exclusive exclusive = true
same_state modified modified = true
same_state a b = false

-- What `CheckForMESIRace` does with a request whose line has changed.
unfoldable pub resolve_race : AccessType → MesiState → MesiState → Outcome (Bool × AccessType)
resolve_race gets state initial_state = stop error
resolve_race getx state initial_state = do
  check (is_shared initial_state)
  check (is_invalid state)
  ok (false, getx)
resolve_race puts state initial_state =
    if is_invalid state then ok (true, puts) else (check (is_shared state) >> ok (false, puts))
resolve_race putx state initial_state =
    if is_invalid state then ok (true, putx) else (check (is_shared state) >> ok (false, puts))

-- `CheckForMESIRace`: whether to skip the access, and its type from now on.
unfoldable pub check_for_mesi_race :
    AccessType → MesiState → MesiState → Outcome (Bool × AccessType)
check_for_mesi_race type state initial_state =
    if same_state state initial_state
    then ok (false, type)
    else resolve_race type state initial_state

-- A line of the cache: its own state and the directory's view of the children.
pub record Line (C : Type 0) : Type 0 where
  pub own : MesiState
  pub dir : Dir C

-- `shouldAllocate`: called where the line is not in the array.
unfoldable pub should_allocate : Bool → AccessType → Outcome Bool
should_allocate non_inclusive_hack type =
    if is_get type then ok true else (error_if (not non_inclusive_hack) >> ok false)

-- The line with the children's lines at another address.
abbrev pub seen : {C : Type 0} → (ℕ → C) → Line C → Line C
seen fresh l = record l { dir = record l.dir { kids = fresh } }

module _ {C : Type 0} (up : Parents) (b : BottomConfig) (t : TopConfig C) where
  -- `processEviction`, where `req` is the request that needs the place.
  unfoldable pub process_eviction : MemReq → ℕ → Line C → ℕ → Outcome (Line C × ℕ)
  process_eviction req wb_line_addr l start_cycle = do
    (dir, writeback, cycle) ← Top.process_eviction t start_cycle req.src_id req.noc_req l.dir
    (own, cycle) ← Bottom.process_eviction up b wb_line_addr l.own writeback cycle req.src_id
    ok (record { own = own; dir = dir }, cycle)

  -- A writeback that the directory's calls have brought up.
  unfoldable pub take_writeback : Bool → MesiState → Outcome MesiState
  take_writeback true own = Bottom.process_writeback_on_access own
  take_writeback false own = ok own

  -- The second half of `processAccess`: the directory's part.
  unfoldable pub tell_child : MemReq → ℕ → Flags → Line C → ℕ → Outcome (Line C × ℕ)
  tell_child req cell flags l cycle = do
    (dir, writeback, cycle) ←
        Top.process_access t req.type req.child_id cell (has_exclusive l.own) cycle req.src_id flags
          req.noc_req req.noc_child_id l.dir
    own ← take_writeback writeback l.own
    ok (record { own = own; dir = dir }, cycle)

  -- `processAccess` on a line that the cache has; `cell` is the child that asks.
  unfoldable pub access_line : MemReq → ℕ → Line C → ℕ → Outcome (Line C × ℕ)
  access_line req cell l start_cycle = do
    check (not req.flags.prefetch || is_gets req.type)
    let flags = record req.flags { prefetch = false }
    (own, cycle) ←
        Bottom.process_access up b req.line_addr l.own req.type start_cycle req.src_id flags
          req.noc_req
    if req.flags.prefetch
        then ok (record l { own = own }, cycle)
        else tell_child req cell flags (record l { own = own }) cycle

  -- A writeback of a line that the cache does not have goes to the parent, with the child's state.
  unfoldable pub bypass : MemReq → ℕ → Line C → ℕ → Outcome (Line C × ℕ)
  bypass req cell l start_cycle = do
    check b.non_inclusive_hack
    check (is_put req.type)
    (state, cycle) ←
        Bottom.process_non_inclusive_writeback up b req.line_addr req.type start_cycle
          (t.state (l.dir.kids cell)) req.src_id req.flags
    ok (record l { dir = Top.set_child t cell state l.dir }, cycle)

  -- `processAccess`; `found` says that `lineId` is not -1.
  unfoldable pub process_access : Bool → MemReq → ℕ → Line C → ℕ → Outcome (Line C × ℕ)
  process_access found req cell l start_cycle =
      if not found || is_put req.type && is_invalid l.own
      then bypass req cell l start_cycle
      else access_line req cell l start_cycle

  -- `processInv`: the line, whether a writeback is asked for, and the response cycle.
  unfoldable pub process_inv : InvType → ℕ → Bool → Line C → ℕ → Outcome (Line C × Bool × ℕ)
  process_inv type src_id noc_req l start_cycle = do
    (dir, below, cycle) ← Top.process_inval t type start_cycle src_id noc_req l.dir
    (own, here) ← Bottom.process_inval l.own type
    ok (record { own = own; dir = dir }, below || here, cycle)

  -- `Cache::finishInvalidate`. A line that the array does not have is invalid.
  unfoldable pub finish_invalidate : ℕ → InvType → ℕ → ℕ → Line C → Outcome (Line C × Bool × ℕ)
  finish_invalidate inv_lat type cycle src_id l = do
    check (not (is_invalid l.own))
    process_inv type src_id false l (add64 cycle inv_lat)

  -- What `Cache::access` does past the races: `l` is the line that the look-up or, in a miss, the
  -- replacement found, at the address `wb_line_addr` with the children's lines in its view, and
  -- `fresh` are the children's lines at the request's address. The first result is the line that
  -- had to go.
  unfoldable pub perform :
      Bool → MemReq → ℕ → ℕ → (ℕ → C) → Line C → ℕ → Outcome (Line C × Line C × ℕ)
  perform true req cell wb_line_addr fresh l cycle = do
    (l', resp) ← process_access true req cell (seen fresh l) cycle
    ok (l, l', resp)
  perform false req cell wb_line_addr fresh l cycle = do
    allocate ← should_allocate b.non_inclusive_hack req.type
    if allocate
        then (process_eviction req wb_line_addr l cycle >>= λ (gone, late).
            process_access true req cell (seen fresh gone) cycle >>= λ (l', resp).
            ok (gone, l', resp))
        else (process_access false req cell (seen fresh l) cycle >>= λ (l', resp). ok (l, l', resp))

  -- `Cache::access`: the request may be skipped, or its type change, where a race was lost.
  unfoldable pub access :
      ℕ → Bool → MemReq → ℕ → ℕ → (ℕ → C) → Line C → Outcome (Line C × Line C × ℕ)
  access acc_lat hit req cell wb_line_addr fresh l = do
    (skip, type) ← check_for_mesi_race req.type (t.state (fresh cell)) req.initial_state
    (gone, l', resp) ←
        if skip
        then ok (l, l, req.cycle)
        else perform hit (record req { type = type }) cell wb_line_addr fresh l
            (add64 req.cycle acc_lat)
    check (leb req.cycle resp)
    ok (gone, l', resp)
