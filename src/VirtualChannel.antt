-- ===== src/VirtualChannel.antt =====
-- `VC` of booksim2/src/{vc.hpp,vc.cpp}: the queue of flits of one virtual channel and the state of
-- the packet at its front. The queue owns its flits, so that they are values here, and the priority
-- that `AddFlit` stores in a flit is stored in the queue. Watched flits only change the debug output.
pub mod Packets
pub mod Accepts
pub mod Order
pub mod Priority
pub mod Wide
mod Tests
use bzsim.Base.{
  ℕ, ◌+◌, ◌-◌, ◌^◌, ◌≤◌, ℤ, pos, negsuc, is_negative, ltb_ℤ, sub_ℕ, to_int, Bool, true, false, not,
  ◌&&◌, ◌==◌, if◌then◌else◌, Option, none, some, List, [], ◌∷◌, ◌++◌, length, Outcome, ok, stop,
  error, ◌>>=◌, ◌>>◌, check, error_if, leb,
}
use bzsim.Flit.{Flit}

-- `eVCState`.
pub data VcState : Type 0 where
  idle routing vc_alloc active : VcState

-- `ePrioType`; `none` of the source is `no_priority`.
pub data PrioType : Type 0 where
  local_age_based queue_length_based hop_count_based no_priority other : PrioType

-- The fields; the front of the queue stands first. The route set is the routing function's.
pub record Vc : Type 0 where
  pub buffer : List Flit
  pub state : VcState
  pub out_port : ℤ
  pub out_vc : ℤ
  pub pri_type : PrioType
  pub pri : ℤ
  pub priority_donation : Bool
  pub expected_pid : ℤ
  pub last_id : ℤ
  pub last_pid : ℤ

-- The constructor; the arguments are what it reads from the configuration.
unfoldable pub init : PrioType → Bool → Vc
init pri_type donation = record {
  buffer = [];
  state = idle;
  out_port = negsuc 0;
  out_vc = negsuc 0;
  pri_type = pri_type;
  pri = pos 0;
  priority_donation = donation;
  expected_pid = negsuc 0;
  last_id = negsuc 0;
  last_pid = negsuc 0;
}

-- The first part of `AddFlit`: the packet that the next flit must belong to, -1 for any.
unfoldable pub expect : ℤ → Flit → Outcome ℤ
expect (pos pid) f = do error_if (not (f.pid == pid)); ok (if f.tail then negsuc 0 else pos pid)
expect (negsuc k) f = ok (if f.tail then negsuc k else to_int f.pid)

-- `numeric_limits<int>::max() - GetSimTime()`, stored in an `int`, while the time is below 2 ^ 63.
age : ℕ → ℤ
age now = to_int (2 ^ 64 + (2 ^ 31 - 1) - now)

-- The part of `AddFlit` that sets the flit's priority.
unfoldable pub stamp : PrioType → ℕ → Flit → Outcome Flit
unfolding age
stamp local_age_based now f = do
  check (not (is_negative (age now)))
  ok (record f { pri = age now })
stamp hop_count_based now f = do check (not (is_negative f.hops)); ok (record f { pri = f.hops })
stamp queue_length_based now f = ok f
stamp no_priority now f = ok f
stamp other now f = ok f

-- The loop of `UpdatePriority`: the first flit of the highest priority.
unfoldable pub donor : Flit → List Flit → Flit
donor df [] = df
donor df (bf ∷ rest) = donor (if ltb_ℤ df.pri bf.pri then bf else df) rest

-- The priority that a queue with the front `f` gives.
unfoldable pub front_priority : Vc → Flit → List Flit → ℤ
unfolding donor
front_priority v f rest = elim v.pri_type [
  | queue_length_based ↦ pos (length (f ∷ rest))
  | no_priority ↦ v.pri
  | local_age_based ↦ f.pri
  | hop_count_based ↦ if v.priority_donation then (donor f rest).pri else f.pri
  | other ↦ if v.priority_donation then (donor f rest).pri else f.pri
]

-- `UpdatePriority`, by the queue.
unfoldable pub update_from : Vc → List Flit → Vc
update_from v [] = v
update_from v (f ∷ rest) = record v { pri = front_priority v f rest }

-- `UpdatePriority`.
unfoldable pub update_priority : Vc → Vc
unfolding update_from
update_priority v = update_from v v.buffer

-- `AddFlit`.
unfoldable pub add_flit : Vc → ℕ → Flit → Outcome Vc
add_flit v now f = do
  pid ← expect v.expected_pid f
  g ← stamp v.pri_type now f
  ok (update_priority (record v { expected_pid = pid; buffer = v.buffer ++ g ∷ [] }))

-- `RemoveFlit`, by the queue.
unfoldable pub remove_from : Vc → List Flit → Outcome (Vc × Flit)
remove_from v [] = stop error
remove_from v (f ∷ rest) = ok (
  update_priority (record v { buffer = rest; last_id = to_int f.id; last_pid = to_int f.pid }),
  f,
)

-- `RemoveFlit`.
unfoldable pub remove_flit : Vc → Outcome (Vc × Flit)
unfolding remove_from
remove_flit v = remove_from v v.buffer

-- `FrontFlit`.
unfoldable pub front_flit : Vc → Option Flit
front_flit v = elim v.buffer [ [] ↦ none | f ∷ rest ↦ some f ]

-- `SetState`, `SetOutput`, `SetRouteSet` and `Route`, which leave the route set to others.
unfoldable pub set_state : Vc → VcState → Vc
set_state v s = record v { state = s }

unfoldable pub set_output : Vc → ℤ → ℤ → Vc
set_output v port vc = record v { out_port = port; out_vc = vc }

unfoldable pub set_route_set : Vc → Vc
set_route_set v = record v { out_port = negsuc 0; out_vc = negsuc 0 }
