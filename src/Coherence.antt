-- ===== src/Coherence.antt =====
-- The types of zsim/src/memory_hierarchy.{h,cpp}: states, requests and the answers to them. One line
-- is modelled at a time: its address is looked up once, and what the controllers keep in arrays is
-- the line's cell. Cycles are 64-bit. Locks, traces, profiling counters and the coordinates of a
-- request, which only the network reads, are left out.
pub mod Bottom
pub mod Top
pub mod Controller
pub mod Terminal
pub mod Memory
pub mod Permission
pub mod Node
pub mod Access
pub mod Eviction
pub mod Race
pub mod Leaf
pub mod Tower
mod Tests
use bzsim.Base.{
  ℕ, ◌+◌, ◌-◌, ◌%◌, ◌^◌, Bool, true, false, ◌||◌, ltb, if◌then◌else◌, Outcome, ok, stop,
}
use bzsim.Base.Fault.{assertion}

-- `MESIState`: I, S, E and M.
pub data MesiState : Type 0 where
  invalid shared exclusive modified : MesiState

-- `AccessType`.
pub data AccessType : Type 0 where
  gets getx puts putx : AccessType

-- `InvType`.
pub data InvType : Type 0 where
  inv invx fwd : InvType

-- `MemReq::flags`, a set of bits.
pub record Flags : Type 0 where
  pub ifetch : Bool
  pub no_excl : Bool
  pub non_incl_wb : Bool
  pub putx_keep_excl : Bool
  pub prefetch : Bool

abbrev pub no_flags : Flags
no_flags = record {
  ifetch = false;
  no_excl = false;
  non_incl_wb = false;
  putx_keep_excl = false;
  prefetch = false;
}

-- `MemReq`. The state of the child, to which the source has a pointer, is handed over beside it.
pub record MemReq : Type 0 where
  pub line_addr : ℕ
  pub type : AccessType
  pub child_id : ℕ
  pub cycle : ℕ
  pub initial_state : MesiState
  pub src_id : ℕ
  pub flags : Flags
  pub noc_req : Bool
  pub noc_child_id : ℕ

-- `state == I`, `state == S`, `state == E || state == M`, `state == M`.
abbrev pub is_invalid : MesiState → Bool
is_invalid invalid = true
is_invalid state = false

abbrev pub is_shared : MesiState → Bool
is_shared shared = true
is_shared state = false

abbrev pub has_exclusive : MesiState → Bool
has_exclusive exclusive = true
has_exclusive modified = true
has_exclusive state = false

abbrev pub is_modified : MesiState → Bool
is_modified modified = true
is_modified state = false

-- `IsGet`.
abbrev pub is_get : AccessType → Bool
is_get gets = true
is_get getx = true
is_get type = false

-- `IsPut`.
abbrev pub is_put : AccessType → Bool
is_put puts = true
is_put putx = true
is_put type = false

-- 64-bit sums and differences.
abbrev pub add64 : ℕ → ℕ → ℕ
add64 a b = (a + b) % 2 ^ 64

abbrev pub sub64 : ℕ → ℕ → ℕ
sub64 a b = (a + 2 ^ 64 - b) % 2 ^ 64

-- MAX(a, b).
abbrev pub larger : ℕ → ℕ → ℕ
larger a b = if ltb b a then a else b
