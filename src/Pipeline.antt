-- ===== src/Pipeline.antt =====
-- booksim2/src/pipefifo.hpp: a pipeline of some lanes, and its use in one step of the event-driven
-- router, booksim2/src/routers/event_router.cpp (`_InternalStep`, `_TransportArb`), whose choice of what
-- is written is an argument. A pointer is an option, `none` for 0.
pub mod Circle
pub mod Step
pub mod Delay
mod Tests
use bzsim.Base.{
  ℕ, zero, suc, ◌+◌, ◌%◌, Option, none, some, List, [], ◌∷◌, ltb, if◌then◌else◌, update,
}

-- `PipelineFIFO`: the data of each lane at each place.
pub record PipelineFifo (T : Type 0) : Type 0 where
  pub lanes : ℕ
  pub depth : ℕ
  pub pipe_len : ℕ
  pub pipe_ptr : ℕ
  pub slots : ℕ → ℕ → Option T

-- The constructor.
unfoldable pub init : {T : Type 0} → ℕ → ℕ → PipelineFifo T
init lanes depth = record {
  lanes = lanes;
  depth = depth;
  pipe_len = depth + 1;
  pipe_ptr = 0;
  slots = λ lane place. none;
}

-- `Write`.
unfoldable pub write : {T : Type 0} → PipelineFifo T → Option T → ℕ → PipelineFifo T
write r val lane = record r { slots = update r.slots lane (update (r.slots lane) r.pipe_ptr val) }

-- `WriteAll`.
unfoldable pub write_all : {T : Type 0} → PipelineFifo T → Option T → PipelineFifo T
write_all r val = record r {
  slots = λ lane. if ltb lane r.lanes then update (r.slots lane) r.pipe_ptr val else r.slots lane;
}

-- `Read`.
unfoldable pub read : {T : Type 0} → PipelineFifo T → ℕ → Option T
read r lane = r.slots lane r.pipe_ptr

-- `Advance`.
unfoldable pub advance : {T : Type 0} → PipelineFifo T → PipelineFifo T
advance r = record r { pipe_ptr = (r.pipe_ptr + 1) % r.pipe_len }

-- A router writes only what is not 0.
unfoldable pub write_some : {T : Type 0} → PipelineFifo T → Option T → ℕ → PipelineFifo T
write_some r none lane = r
write_some r (some x) lane = write r (some x) lane

-- The writes of one step of a router into the first `n` lanes.
unfoldable pub write_lanes : {T : Type 0} → ℕ → PipelineFifo T → (ℕ → Option T) → PipelineFifo T
write_lanes zero r vals = r
write_lanes (suc n) r vals = write_some (write_lanes n r vals) (vals n) n

-- One step: all lanes are cleared, some of them written, and the pipeline advances.
unfoldable pub step : {T : Type 0} → PipelineFifo T → (ℕ → Option T) → PipelineFifo T
step r vals = advance (write_lanes r.lanes (write_all r none) vals)

-- What is read from a lane after each of the steps.
unfoldable pub run : {T : Type 0} → PipelineFifo T → ℕ → List (ℕ → Option T) → List (Option T)
run r lane [] = []
run r lane (vals ∷ rest) = let next = step r vals in read next lane ∷ run next lane rest
