-- ===== src/PrioQueue/Tests.antt =====
-- Runs of the queue with four blocks.
use mathlib.Core.List.{Perm}
use mathlib.Core.List.Perm
use bzsim.Base.{
  ℕ, ◌/◌, ◌≤◌, ◌≡◌, refl, false, ◌∷◌, ◌==◌, if◌then◌else◌, arith, Option, none, some, Outcome, ok,
  ◌>>=◌, subst,
}
use bzsim.PrioQueue
use bzsim.PrioQueue.{PrioQueue, init, enqueue, dequeue}
use bzsim.PrioQueue.Order.{Added, enqueue-Added, init-IsQueue, held, held-init}
use bzsim.PrioQueue.Seek.{IsFirst, has-Perm}
use bzsim.PrioQueue.Least.{Dequeued, dequeue-Dequeued}

abbrev start : PrioQueue ℕ
start = init 4

now : start.cur_block ≤ 70 / 64
unfolding init
now = omega arith

enqueue-Added_example : Added 4 start 7 70
enqueue-Added_example = enqueue-Added 4 start 7 70 (omega arith) (init-IsQueue ℕ 4) now

abbrev one : Added 4 start 7 70
one = enqueue-Added 4 start 7 70 (omega arith) (init-IsQueue ℕ 4) now

only_seventy : IsFirst 4 (omega arith) one.after 70
only_seventy = record {
  some_held = has-Perm (held 4 one.after 70) (7 ∷ held 4 start 70) (one.more 70) refl;
  none_before = λ c h.
      let e : (70 == c) ≡ false = ground arith in
      Perm.eq-nil (
        subst (Perm (held 4 one.after c)) (held-init ℕ 4 c) (
          subst (λ b. Perm (held 4 one.after c) (if b then 7 ∷ held 4 start c else held 4 start c))
            e (one.more c)));
}

dequeue-Dequeued_example : Dequeued 4 (omega arith) 2 one.after 70
dequeue-Dequeued_example =
    dequeue-Dequeued 4 (omega arith) 2 one.after 70 one.queue only_seventy (omega arith)

abbrev first_two : Outcome (Option (ℕ × ℕ × ℕ))
first_two = do
  a ← enqueue 4 start 5 1000
  b ← enqueue 4 a 7 70
  x ← dequeue 4 20 b
  elim x [
    | none ↦ ok none
    | some (o, c, q) ↦ (do
      y ← dequeue 4 20 q
      ok (elim y [ none ↦ none | some (p, d, r) ↦ some (o, p, d) ]))
  ]

-- The far object comes out second, at its cycle.
in_order : first_two ≡ ok (some (7, 5, 1000))
unfolding init enqueue dequeue PrioQueue.insert_far PrioQueue.put_near PrioQueue.pull
    PrioQueue.next_block PrioQueue.seek PrioQueue.at_block PrioQueue.take_object
    PrioQueue.dequeue_block PrioQueue.take_first PrioQueue.enqueue_block PrioQueue.lowest
    PrioQueue.empty_block
in_order = refl
