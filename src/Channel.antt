-- ===== src/Channel.antt =====
-- booksim2/src/channel.hpp: a link with a latency. A pointer is an option, `none` for 0, and the
-- time of the simulator is an argument.
pub mod Delay
mod Tests
use bzsim.Base.{
  ℕ, zero, suc, ◌+◌, ◌-◌, ℤ, pos, negsuc, Option, none, some, List, [], ◌∷◌, ◌++◌, Bool, true,
  false, ltb, ◌==◌, if◌then◌else◌, Outcome, ok, stop, ◌>>=◌, ◌>>◌, check,
}
use bzsim.Base.Fault.{error}

pub record Channel (T : Type 0) : Type 0 where
  pub delay : ℕ
  pub input : Option T
  pub output : Option T
  pub wait_queue : List (ℕ × T)

-- The constructor.
unfoldable pub init : {T : Type 0} → Channel T
init = record { delay = 1; input = none; output = none; wait_queue = [] }

-- `SetLatency`.
unfoldable pub set_latency : {T : Type 0} → Channel T → ℤ → Outcome (Channel T)
set_latency c (pos zero) = stop error
set_latency c (pos (suc n)) = ok (record c { delay = suc n })
set_latency c (negsuc n) = stop error

-- `Send`.
unfoldable pub send : {T : Type 0} → Channel T → Option T → Channel T
send c x = record c { input = x }

-- `Receive`.
unfoldable pub receive : {T : Type 0} → Channel T → Option T
receive c = c.output

-- `IsEmpty`.
unfoldable pub is_empty : {T : Type 0} → Channel T → Bool
is_empty c = elim c.wait_queue [ [] ↦ true | x ∷ xs ↦ false ]

-- `ReadInputs`.
unfoldable pub read_inputs : {T : Type 0} → Channel T → ℕ → Channel T
read_inputs c now = elim c.input [
  | none ↦ c
  | some x ↦ record c { wait_queue = c.wait_queue ++ ((now + c.delay - 1, x) ∷ []); input = none }
]

-- `WriteOutputs`, by what is at the front of the queue.
unfoldable pub front : {T : Type 0} → Channel T → ℕ → List (ℕ × T) → Outcome (Channel T)
front c now [] = ok (record c { output = none })
front c now ((time, x) ∷ rest) =
    if ltb now time
    then ok (record c { output = none })
    else (check (now == time) >> ok (record c { output = some x; wait_queue = rest }))

unfoldable pub write_outputs : {T : Type 0} → Channel T → ℕ → Outcome (Channel T)
write_outputs c now = front c now c.wait_queue

-- One cycle, in which `x` is sent: the channel reads its input and writes its output.
unfoldable pub cycle : {T : Type 0} → Channel T → ℕ → Option T → Outcome (Channel T)
cycle c now x = write_outputs (read_inputs (send c x) now) now

-- What is received in each of the cycles from `now` on.
unfoldable pub run : {T : Type 0} → Channel T → ℕ → List (Option T) → Outcome (List (Option T))
run c now [] = ok []
run c now (x ∷ xs) = do d ← cycle c now x; outs ← run d (suc now) xs; ok (receive d ∷ outs)
