-- ===== src/PrioQueue/Least.antt =====
-- `dequeue` takes an object of the least cycle.
use mathlib.Core.List.{Perm}
use mathlib.Core.List.Perm
use bzsim.Base.{
  ℕ, ◌+◌, ◌-◌, ◌*◌, ◌/◌, ◌%◌, ◌<◌, ◌≤◌, ◌≡◌, refl, sym, ap, ◌∙◌, true, some, List, ◌∷◌, length, ltb,
  ◌==◌, if◌then◌else◌, update, le-total, ok, arith,
}
use native.Mathlib.Nat.{mod-lt}
use bzsim.PrioQueue.{Block, PrioQueue, seek, take_object, dequeue, dequeue_block}
use bzsim.PrioQueue.Blocks.{has, dequeue_block-Taken}
use bzsim.PrioQueue.Contents.{in_block, stored-update}
use bzsim.PrioQueue.Order.{held, IsQueue}
use bzsim.PrioQueue.Dequeue.{here}
use bzsim.PrioQueue.Seek.{IsFirst, seek-Found, objects}
use bzsim.PrioQueue.Take.{in_block-take, update-IsBlock, held-take}

module _ {T : Type 0} (size : ℕ) (two : 2 ≤ size) where
  -- The object that has been taken at `m`, and the queue that is left.
  pub record Dequeued (fuel : ℕ) (q : PrioQueue T) (m : ℕ) : Type 0 where
    pub obj : T
    pub after : PrioQueue T
    pub succeeds : dequeue size fuel q ≡ ok (some (obj, m, after))
    pub queue : IsQueue size after
    pub others :
        (c : ℕ)
        → Perm (held size q c) (if m == c then obj ∷ held size after c else held size after c)

  -- A block with an object makes the queue count one at least.
  counts_one :
      (q : PrioQueue T) (pos : ℕ)
      → IsQueue size q
      → pos < 64
      → has ((here size q two).slots pos) ≡ true
      → 0 < q.elems
  counts_one q pos i h s =
      let (x, xs, e) = objects ((here size q two).slots pos) s in
      let a =
        le-total size (λ j. in_block size (q.blocks j)) (q.cur_block % size)
          (mod-lt q.cur_block (omega arith)) in
      let b = le-total 64 (λ p. length ((here size q two).slots p)) pos h in
      let l = ap (λ (k : List T). length k) e in omega (arith, i.counted, a, b, l)

  dequeue_ok :
      (fuel : ℕ) (q s : PrioQueue T) (a : Block T) (x : T) (pos : ℕ)
      → ltb 0 q.elems ≡ true
      → seek size fuel q ≡ ok (some s)
      → dequeue_block (here size s two) ≡ ok (a, x, pos)
      → dequeue size fuel q
        ≡ ok (
            some (
              x,
              s.cur_block * 64 + pos,
              record s { blocks = update s.blocks (s.cur_block % size) a; elems = s.elems - 1 },
            ))
  unfolding dequeue take_object
  dequeue_ok fuel q s a x pos e f g = rw (e, f, g) refl

  -- In a well-formed queue whose first cycle with an object is `m`, and with a round of fuel for each
  -- block from the current one to that of `m`: `dequeue` succeeds, returns an object of the cycle
  -- `m` and this cycle, and leaves a well-formed queue that holds all other objects at their cycles.
  pub dequeue-Dequeued :
      (fuel : ℕ) (q : PrioQueue T) (m : ℕ)
      → IsQueue size q
      → IsFirst size two q m
      → m / 64 < q.cur_block + fuel
      → Dequeued fuel q m
  dequeue-Dequeued fuel q m i f h =
      let r = seek-Found size two fuel q m i f h in
      let s = r.after in
      let b = here size s two in
      let (x, xs, e) = objects (b.slots (m % 64)) r.slot in
      let t = dequeue_block-Taken b (m % 64) x xs (r.queue.bits (s.cur_block % size)) r.bit e in
      let n = counts_one s (m % 64) r.queue (omega arith) r.slot in
      let enough : ltb 0 q.elems ≡ true = ground (arith, n, r.count) in
      let here_m : s.cur_block * 64 + m % 64 ≡ m = omega (arith, r.block) in
      let new = update s.blocks (s.cur_block % size) t.after in
      let left : PrioQueue T = record s { blocks = new; elems = s.elems - 1 } in
      record {
        obj = x;
        after = left;
        succeeds =
            dequeue_ok fuel q s t.after x (m % 64) enough r.succeeds t.succeeds
            ∙ ap (λ (k : ℕ). ok (some (x, k, left))) here_m;
        queue = record {
          bits = update-IsBlock size two s.blocks (s.cur_block % size) t.after r.queue.bits t.bits;
          far_away = r.queue.far_away;
          ordered = r.queue.ordered;
          counted = omega (
            arith,
            n,
            r.queue.counted,
            stored-update size s.blocks (s.cur_block % size) t.after
                (mod-lt s.cur_block (omega arith)),
            in_block-take size two b t.after (m % 64) x xs (omega arith) e t.slots,
          );
        };
        others = λ c.
            Perm.trans (Perm.symm (r.same c))
              (held-take size two s t.after m x xs (sym r.block) e t.slots c);
      }
