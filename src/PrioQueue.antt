-- ===== src/PrioQueue.antt =====
-- zsim/src/prio_queue.h: the queue of events by cycle. The next `size` blocks of 64 cycles are kept
-- in a circle of arrays, later cycles in a sorted map. An object is a value: the lists that objects
-- form by their `next` fields are lists here, and an object is in one list at most, as the assertion
-- of `enqueue` wants. Cycles are below 2 ^ 64 with room for the blocks ahead.
pub mod Blocks
pub mod Contents
pub mod Far
pub mod Order
pub mod Dequeue
pub mod Seek
pub mod Take
pub mod Least
mod Tests
use bzsim.Base.{
  ℕ, zero, suc, ◌+◌, ◌-◌, ◌*◌, ◌/◌, ◌%◌, Bool, true, false, not, ◌&&◌, Option, none, some, List, [],
  ◌∷◌, ltb, leb, ◌==◌, if◌then◌else◌, update, Outcome, ok, stop, ◌>>=◌, ◌>>◌, check,
}
use bzsim.Base.Fault.{assertion, undefined}

-- `PQBlock`: 64 lists, and the word `occ` by its bits.
pub record Block (T : Type 0) : Type 0 where
  pub slots : ℕ → List T
  pub occ : ℕ → Bool

unfoldable pub empty_block : {T : Type 0} → Block T
empty_block = record { slots = λ pos. []; occ = λ pos. false }

-- `__builtin_ctzl` on the first `n` bits; `none` where they are 0.
unfoldable pub lowest : ℕ → (ℕ → Bool) → Option ℕ
lowest zero occ = none
lowest (suc n) occ = elim (lowest n occ) [ some k ↦ some k | none ↦ if occ n then some n else none ]

-- `PQBlock::enqueue`.
unfoldable pub enqueue_block : {T : Type 0} → Block T → T → ℕ → Block T
enqueue_block b obj pos = record b {
  occ = update b.occ pos true;
  slots = update b.slots pos (obj ∷ b.slots pos);
}

-- The first object of a slot leaves; the bit is flipped where it was the last one.
unfoldable pub take_first : {T : Type 0} → Block T → ℕ → List T → Outcome (Block T × T × ℕ)
take_first b pos [] = stop undefined
take_first b pos (res ∷ []) =
    ok (
      record b { slots = update b.slots pos []; occ = update b.occ pos (not (b.occ pos)) },
      res,
      pos,
    )
take_first b pos (res ∷ next ∷ rest) =
    ok (record b { slots = update b.slots pos (next ∷ rest) }, res, pos)

-- `PQBlock::dequeue`.
unfoldable pub dequeue_block : {T : Type 0} → Block T → Outcome (Block T × T × ℕ)
dequeue_block b = elim (lowest 64 b.occ) [
  | none ↦ stop assertion
  | some pos ↦ take_first b pos (b.slots pos)
]

-- `PrioQueue`.
pub record PrioQueue (T : Type 0) : Type 0 where
  pub blocks : ℕ → Block T
  pub fe_map : List (ℕ × T)
  pub cur_block : ℕ
  pub elems : ℕ

-- `insert` of the map of far elements: behind those of the same cycle.
unfoldable pub insert_far : {T : Type 0} → ℕ → T → List (ℕ × T) → List (ℕ × T)
insert_far cycle obj [] = (cycle, obj) ∷ []
insert_far cycle obj ((c, x) ∷ rest) =
    let later = insert_far cycle obj rest in
    if ltb cycle c then (cycle, obj) ∷ (c, x) ∷ rest else (c, x) ∷ later

module _ {T : Type 0} (size : ℕ) where
  -- The constructor.
  unfoldable pub init : PrioQueue T
  init = record { blocks = λ i. empty_block; fe_map = []; cur_block = 0; elems = 0 }

  -- The block of a cycle gets an object.
  unfoldable pub put_near : (ℕ → Block T) → T → ℕ → ℕ → Block T
  put_near blocks obj cycle =
      let i = cycle / 64 % size in update blocks i (enqueue_block (blocks i) obj (cycle % 64))

  -- `enqueue`.
  unfoldable pub enqueue : PrioQueue T → T → ℕ → Outcome (PrioQueue T)
  enqueue q obj cycle = do
    check (leb q.cur_block (cycle / 64))
    ok (
        if ltb (cycle / 64) (q.cur_block + size)
        then record q { blocks = put_near q.blocks obj cycle; elems = q.elems + 1 }
        else record q { fe_map = insert_far cycle obj q.fe_map; elems = q.elems + 1 })

  -- The far elements before `top` move into the blocks; the rest of the map stays.
  unfoldable pub pull :
      ℕ → ℕ → (ℕ → Block T) → List (ℕ × T) → Outcome ((ℕ → Block T) × List (ℕ × T))
  pull top cur blocks [] = ok (blocks, [])
  pull top cur blocks ((cycle, obj) ∷ rest) =
      let next = pull top cur (put_near blocks obj cycle) rest in
      if ltb cycle top
      then (do check (leb cur (cycle / 64)); check (ltb (cycle / 64) (cur + size)); next)
      else ok (blocks, (cycle, obj) ∷ rest)

  -- One round of the loop of `dequeue`: the next block, and every half circle the far elements that
  -- have come near. With an empty map there is nothing to pull.
  unfoldable pub next_block : PrioQueue T → Outcome (PrioQueue T)
  next_block q = do
    let cur = suc q.cur_block
    if cur % (size / 2) == 0
        then (do
          (blocks, rest) ← pull ((cur + size) * 64) cur q.blocks q.fe_map
          ok (record q { cur_block = cur; blocks = blocks; fe_map = rest }))
        else ok (record q { cur_block = cur })

  -- The loop's test: the block is occupied, or the loop goes on.
  unfoldable pub at_block :
      Option ℕ → PrioQueue T → Outcome (Option (PrioQueue T)) → Outcome (Option (PrioQueue T))
  at_block (some pos) q rest = ok (some q)
  at_block none q rest = rest

  -- The loop, with fuel, to the first block that is occupied.
  unfoldable pub seek : ℕ → PrioQueue T → Outcome (Option (PrioQueue T))
  seek zero q = ok none
  seek (suc fuel) q =
      let rest = next_block q >>= seek fuel in
      at_block (lowest 64 (q.blocks (q.cur_block % size)).occ) q rest

  -- What `dequeue` does at that block.
  unfoldable pub take_object : Option (PrioQueue T) → Outcome (Option (T × ℕ × PrioQueue T))
  take_object none = ok none
  take_object (some q) = do
    let i = q.cur_block % size
    (b, obj, offset) ← dequeue_block (q.blocks i)
    ok (
        some (
          obj,
          q.cur_block * 64 + offset,
          record q { blocks = update q.blocks i b; elems = q.elems - 1 },
        ))

  -- `dequeue`: the object, its cycle, and the queue that is left.
  unfoldable pub dequeue : ℕ → PrioQueue T → Outcome (Option (T × ℕ × PrioQueue T))
  dequeue fuel q = do check (ltb 0 q.elems); found ← seek fuel q; take_object found
