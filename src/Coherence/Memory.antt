-- ===== src/Coherence/Memory.antt =====
-- `SimpleMemory` of zsim/src/mem_ctrls.cpp, the parent of the last caches, and the names of
-- zsim/src/memory_hierarchy.cpp.
use bzsim.Base.{ℕ, if◌then◌else◌, Outcome, ok, ◌>>◌, check, ltb}
use bzsim.Coherence.{
  MesiState, invalid, shared, exclusive, modified, gets, getx, puts, putx, MemReq, add64,
}

-- The state that the memory gives.
unfoldable pub grant : MemReq → MesiState
grant req = elim req.type [
  | puts ↦ invalid
  | putx ↦ invalid
  | gets ↦ if req.flags.no_excl then shared else exclusive
  | getx ↦ modified
]

-- `SimpleMemory::access`.
unfoldable pub access : ℕ → MemReq → MesiState → Outcome (MesiState × ℕ)
access latency req state = do
  let resp_cycle = add64 req.cycle latency
  check (ltb req.cycle resp_cycle)
  ok (grant req, resp_cycle)
