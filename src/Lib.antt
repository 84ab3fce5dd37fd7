-- ===== src/Lib.antt =====
-- bzsim: parts of the simulator's two programs, BookSim 2 (booksim2/, a network-on-chip simulator)
-- and zsim (zsim/, a multicore simulator that drives it).
--
-- The parts modelled, and how they interact:
--
-- Flit has the fields of booksim2/src/flit.hpp that buffers and flow control read.
--
-- Arbiter is booksim2/src/arbiters/arbiter.{hpp,cpp}, the request vector; Arbiter/RoundRobin is
-- roundrobin_arb.{hpp,cpp}, Arbiter/Matrix is matrix_arb.{hpp,cpp}, and Arbiter/Priority is
-- prio_arb.{hpp,cpp}, the arbiter of the event-driven router, which keeps a list of its own. Allocators and routers add
-- the requests of a cycle (`AddRequest`), ask for a winner (`Arbitrate`), tell the arbiter that the
-- grant was used (`UpdateState`) and clear it (`Clear`). Each is a function on a record of the fields;
-- the subclass holds the base class. An input is an index on ℕ, and the functions over inputs stand
-- for the vectors.
--
-- BufferPolicy is the class hierarchy `BufferState::BufferPolicy` of
-- booksim2/src/buffer_state.{hpp,cpp}, one file for each branch of it, and the virtual calls by
-- clauses on one type of policies. A policy reads its owner through a record, `View`.
--
-- BufferState is `BufferState` of the same files, which a router keeps for each output: it counts
-- flits as they are sent and as their credits come back, and asks its policy whether there is room.
--
-- VirtualChannel is `VC` of booksim2/src/vc.{hpp,cpp}, the queue of one virtual channel, and Buffer is
-- `Buffer` of buffer.{hpp,cpp}, the input buffer of a router port, which holds the virtual channels
-- and bounds their flits together. A flit in a queue is a value, as only its queue changes it.
--
-- Link puts the parts together: the `BufferState` of a router's output, the flits on the channel
-- behind it, the `Buffer` of the next router's input, and the credits on the way back. Its steps are
-- the calls that the routers make, in any order and with any delays; a credit carries one VC.
--
-- Allocator is booksim2/src/allocators/allocator.{hpp,cpp}, the base class and the request matrix of
-- the dense allocators, and Allocator/Wavefront is wavefront.{hpp,cpp}. A router adds requests of
-- inputs for outputs, calls `Allocate`, and reads who is assigned to whom. The set of priorities is
-- the list of its elements in the order in which it is read.
--
-- Channel is booksim2/src/channel.hpp, a link with a latency, and Pipeline is pipefifo.hpp, the stages of
-- a router. Both are run cycle by cycle as the routers do: what is sent or written in a cycle is an
-- option, and a run is the list of what comes out.
--
-- Routing has `dor_next_mesh` of booksim2/src/routefunc.cpp and the neighbours and channels of
-- networks/kncube.cpp, which builds the mesh. Node numbers are below gK to the power gN, within `int`.
--
-- Coherence is the MESI protocol of zsim's caches, zsim/src/coherence_ctrls.{h,cpp} with the types of
-- memory_hierarchy.h: Bottom is `MESIBottomCC`, the state of a line towards the upper level, Top is
-- `MESITopCC`, the directory over the lower level, Controller is `MESICC` with the calls that
-- `Cache::access` and `Cache::finishInvalidate` (cache.cpp) make to it, Terminal is `MESITerminalCC`,
-- and Memory is `SimpleMemory` of mem_ctrls.cpp. One line is modelled at a time: the array's cell of
-- the line is the state, and the children's cells of the same line stand in the directory's view. The
-- parent is an argument, any function that serves the requests that may be made; the children are of
-- any kind that follows invalidations (`IsChild` of Top/Children). Two such kinds are built: terminal
-- caches (`leaf_child` of Leaf), and caches over children of any such kind (`cache_child` of Tower), so
-- that the levels can be stacked. Sums of cycles wrap at 64 bits.
--
-- CacheArray is the set-associative array of zsim/src/cache_arrays.{h,cpp}, which `Cache::access` asks
-- for the line of an address (`lookup`) and for the line to replace (`preinsert`, `postinsert`). It
-- uses a replacement policy through the interface `ReplPolicy` (Replacement), with the laws that it
-- relies on in `IsPolicy`. Replacement has the policies of repl_policies.h: Lru, TreeLru and Nru. The
-- hash function is a parameter, any function.
--
-- PrioQueue is zsim/src/prio_queue.h, the queue of the contention simulation: a circle of blocks of 64
-- cycles, and a map of the events beyond. The number of blocks is a parameter, two or more.
--
-- `Error(...)` and a failing `assert` stop the program: they are the results `stop error` and
-- `stop assertion` of `Outcome` (Base/Faults), and an index that the code does not check, outside its
-- vector, is `stop undefined`. Text for output and the debug prints are left out. GetSimTime() is the
-- argument `now`. Counters are unbounded here: they stay below the buffer sizes, which are
-- configuration values. Where the code stores a 64-bit number in an `int` (packet and flit IDs,
-- times), the conversion is written out (`to_int`). The loops that are not structural run
-- on fuel that is shown to be enough: that of the shifting policy halves a number, that of TreeLru
-- halves the candidates, and that of `PrioQueue::dequeue` goes from block to block up to the first
-- event.
--
-- Not modelled: the tree arbiter, the sparse allocators, the pipelines of the routers as a whole, the
-- other networks and routing functions, traffic and power of BookSim; of zsim, the zcache array, the
-- policies LFU, random and profiling, the locks, counters and timing records of the coherence code, and
-- all the rest, which runs inside Pin; TRACK_BUFFERS, a build option that is off; the constructors of
-- the shared policies, which parse the configuration.

pub mod Base
pub mod Arbiter
pub mod Flit
pub mod BufferPolicy
pub mod BufferState
pub mod Coherence
pub mod Allocator
pub mod Routing
pub mod VirtualChannel
pub mod Buffer
pub mod Link
pub mod Replacement
pub mod CacheArray
pub mod Channel
pub mod Pipeline
pub mod PrioQueue
