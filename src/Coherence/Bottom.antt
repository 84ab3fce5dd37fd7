-- ===== src/Coherence/Bottom.antt =====
-- `MESIBottomCC` of zsim/src/coherence_ctrls.{h,cpp}: the state of a line towards the upper level.

pub mod Grants
use Prim.Native.Nat.{bit_xor}
use bzsim.Base.{
  ℕ, ◌+◌, ◌/◌, ◌%◌, ◌^◌, Bool, true, false, not, ◌&&◌, ◌||◌, leb, ◌==◌, if◌then◌else◌, Outcome, ok,
  stop, ◌>>=◌, ◌>>◌, check, error_if,
}
use bzsim.Base.Fault.{undefined}
use bzsim.Coherence.{
  MesiState, invalid, shared, exclusive, modified, AccessType, gets, getx, puts, putx, InvType, inv,
  invx, fwd, Flags, no_flags, MemReq, is_invalid, is_shared, has_exclusive, is_modified, add64,
  sub64,
}

-- `MemObject::access` of the parents, by number: the request and the cell that `req.state` points
-- to; the cell afterwards and the response cycle.
abbrev pub Parents : Type 0
Parents = ℕ → MemReq → MesiState → Outcome (MesiState × ℕ)

-- What the controller is built with.
pub record BottomConfig : Type 0 where
  pub parents_size : ℕ
  pub parent_rtts : ℕ → ℕ
  pub self_id : ℕ
  pub is_llc : Bool
  pub non_inclusive_hack : Bool

-- The exclusive or of the four 16-bit parts of an address.
unfoldable pub hash_address : ℕ → ℕ
hash_address a =
    bit_xor (bit_xor (bit_xor (bit_xor 0 (a % 2 ^ 16)) (a / 2 ^ 16 % 2 ^ 16)) (a / 2 ^ 32 % 2 ^ 16))
      (a / 2 ^ 48 % 2 ^ 16)

-- `getParentId`. The remainder by an empty vector's size is undefined.
unfoldable pub get_parent_id : BottomConfig → ℕ → Outcome ℕ
get_parent_id b line_addr =
    if b.parents_size == 0 then stop undefined else ok (hash_address line_addr % b.parents_size)

-- A request of this controller on its own cell.
abbrev pub request : BottomConfig → ℕ → AccessType → MesiState → ℕ → ℕ → Flags → Bool → MemReq
request b line_addr type state cycle src_id flags noc_req = record {
  line_addr = line_addr;
  type = type;
  child_id = b.self_id;
  cycle = cycle;
  initial_state = state;
  src_id = src_id;
  flags = flags;
  noc_req = noc_req;
  noc_child_id = 0;
}

module _ (up : Parents) (b : BottomConfig) where
  -- A PUTS or a PUTX: the cell and the response cycle.
  unfoldable pub write_back : AccessType → ℕ → MesiState → ℕ → ℕ → Outcome (MesiState × ℕ)
  write_back type line_addr state cycle src_id = do
    parent ← get_parent_id b line_addr
    up parent (request b line_addr type state cycle src_id no_flags false) state

  -- A GETS or a GETX: the 32-bit latencies of the next level and of the network are added.
  unfoldable pub fetch : AccessType → ℕ → MesiState → ℕ → ℕ → Flags → Bool → Outcome (MesiState × ℕ)
  fetch type line_addr state cycle src_id flags noc_req = do
    parent ← get_parent_id b line_addr
    (state', resp) ← up parent (request b line_addr type state cycle src_id flags noc_req) state
    let next_level_lat = sub64 resp cycle % 2 ^ 32
    ok (state', add64 cycle ((next_level_lat + b.parent_rtts parent) % 2 ^ 32))

  -- The switch of `processEviction`.
  unfoldable pub evict : ℕ → MesiState → ℕ → ℕ → Outcome (MesiState × ℕ)
  evict line_addr invalid cycle src_id = ok (invalid, cycle)
  evict line_addr shared cycle src_id =
      if b.is_llc then ok (invalid, cycle) else write_back puts line_addr shared cycle src_id
  evict line_addr exclusive cycle src_id =
      if b.is_llc then ok (invalid, cycle) else write_back puts line_addr exclusive cycle src_id
  evict line_addr modified cycle src_id = write_back putx line_addr modified cycle src_id

  -- A writeback of a lower level makes an exclusive line modified.
  unfoldable pub absorb : Bool → MesiState → Outcome MesiState
  absorb true state = do check (has_exclusive state); ok modified
  absorb false state = ok state

  -- `processEviction`.
  unfoldable pub process_eviction : ℕ → MesiState → Bool → ℕ → ℕ → Outcome (MesiState × ℕ)
  process_eviction line_addr state lower_level_writeback cycle src_id = do
    state ← absorb lower_level_writeback state
    (state, resp) ← evict line_addr state cycle src_id
    check (is_invalid state)
    ok (state, resp)

  -- The switch of `processAccess`.
  unfoldable pub switch_access :
      ℕ → MesiState → AccessType → ℕ → ℕ → Flags → Bool → Outcome (MesiState × ℕ)
  switch_access line_addr state puts cycle src_id flags noc_req = do
    check (not (is_invalid state))
    ok (state, cycle)
  switch_access line_addr state putx cycle src_id flags noc_req = do
    check (has_exclusive state)
    ok (modified, cycle)
  switch_access line_addr invalid gets cycle src_id flags noc_req = do
    (state, resp) ← fetch gets line_addr invalid cycle src_id flags noc_req
    check (is_shared state || has_exclusive state && not (is_modified state))
    ok (state, resp)
  switch_access line_addr state gets cycle src_id flags noc_req = ok (state, cycle)
  switch_access line_addr exclusive getx cycle src_id flags noc_req = ok (modified, cycle)
  switch_access line_addr modified getx cycle src_id flags noc_req = ok (modified, cycle)
  switch_access line_addr state getx cycle src_id flags noc_req = do
    (state, resp) ← fetch getx line_addr state cycle src_id flags noc_req
    check (is_modified state)
    ok (state, resp)

  -- `processAccess`.
  unfoldable pub process_access :
      ℕ → MesiState → AccessType → ℕ → ℕ → Flags → Bool → Outcome (MesiState × ℕ)
  process_access line_addr state type cycle src_id flags noc_req = do
    (state, resp) ← switch_access line_addr state type cycle src_id flags noc_req
    check (leb cycle resp)
    ok (state, resp)

  -- `processNonInclusiveWriteback`, on the state of the child.
  unfoldable pub process_non_inclusive_writeback :
      ℕ → AccessType → ℕ → MesiState → ℕ → Flags → Outcome (MesiState × ℕ)
  process_non_inclusive_writeback line_addr type cycle state src_id flags = do
    error_if (not b.non_inclusive_hack)
    parent ← get_parent_id b line_addr
    up parent
        (request b line_addr type state cycle src_id (record flags { non_incl_wb = true }) false)
        state

-- `processWritebackOnAccess`.
unfoldable pub process_writeback_on_access : MesiState → Outcome MesiState
process_writeback_on_access state = do check (has_exclusive state); ok modified

-- `processInval`: the state and whether a writeback is asked for.
unfoldable pub process_inval : MesiState → InvType → Outcome (MesiState × Bool)
process_inval state invx = do
  check (not (is_invalid state))
  check (has_exclusive state)
  ok (shared, is_modified state)
process_inval state inv = do check (not (is_invalid state)); ok (invalid, is_modified state)
process_inval state fwd = do
  check (not (is_invalid state))
  check (is_shared state)
  ok (state, false)
