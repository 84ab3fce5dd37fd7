-- ===== src/PrioQueue/Seek.antt =====
-- The loop of `dequeue` stops at the block of the first cycle at which the queue holds something.
use native.Mathlib.Decide.{dec_lt}
use mathlib.Core.List.{Perm}
use mathlib.Core.List.Perm
use bzsim.Base.{
  ℕ, zero, suc, ◌+◌, ◌*◌, ◌/◌, ◌%◌, ◌<◌, ◌≤◌, ◌≡◌, refl, sym, ap, ap₂, ◌∙◌, subst, inl, inr, true,
  none, some, List, [], ◌∷◌, ◌++◌, Option-cases, ok, arith, ◌>>=◌,
}
use bzsim.PrioQueue.{PrioQueue, lowest, next_block, at_block, seek}
use bzsim.PrioQueue.Blocks.{has, Lowest, lowest-Lowest}
use bzsim.PrioQueue.Contents.{far, near, near_in, near_out}
use bzsim.PrioQueue.Far.{far_none}
use bzsim.PrioQueue.Order.{held, IsQueue}
use bzsim.PrioQueue.Dequeue.{here, empty_here, horizon_beyond, next_block-Moved}

pub has-Perm : {T : Type 0} (l k : List T) → Perm l k → has k ≡ true → has l ≡ true
has-Perm [] k p h = let e = Perm.nil-eq p in absurd (cc (ap has e, h))
has-Perm (x ∷ l) k p h = refl

has-append : {T : Type 0} (l k : List T) → has l ≡ true → has (l ++ k) ≡ true
has-append [] k h = cc
has-append (x ∷ l) k h = refl

pub objects : {T : Type 0} (l : List T) → has l ≡ true → (x : T) × (xs : List T) × (l ≡ x ∷ xs)
objects [] h = cc
objects (x ∷ xs) h = (x, xs, refl)

append_nil : {T : Type 0} (l : List T) → l ++ [] ≡ l
append_nil [] = refl
append_nil {T} (x ∷ l) = ap (λ (k : List T). x ∷ k) (append_nil l)

module _ {T : Type 0} (size : ℕ) (two : 2 ≤ size) where
  -- `m` is the first cycle at which the queue holds something.
  pub record IsFirst (q : PrioQueue T) (m : ℕ) : Type 0 where
    pub some_held : has (held size q m) ≡ true
    pub none_before : (c : ℕ) → c < m → held size q c ≡ []

  far_late : (q : PrioQueue T) (c : ℕ) → IsQueue size q → c / 64 ≤ q.cur_block → far q.fe_map c ≡ []
  far_late q c i h =
      far_none _ c q.fe_map i.far_away (omega (arith, horizon_beyond size q two (omega arith)))

  not_past : (q : PrioQueue T) (m : ℕ) → IsQueue size q → IsFirst q m → q.cur_block ≤ m / 64
  unfolding held
  not_past q m i f = elim (dec_lt (m / 64) q.cur_block) [
    | no h ↦ omega arith
    | yes h ↦
        let n = near_out size q.blocks q.cur_block m (ground arith) in
        let e = ap₂ ◌++◌ n (far_late q m i (omega arith)) in absurd (cc (ap has e, f.some_held))
  ]

  -- The loop has stopped at the block of `m`, whose lowest bit is that of `m`.
  pub record Found (fuel : ℕ) (q : PrioQueue T) (m : ℕ) : Type 0 where
    pub after : PrioQueue T
    pub succeeds : seek size fuel q ≡ ok (some after)
    pub queue : IsQueue size after
    pub count : after.elems ≡ q.elems
    pub block : after.cur_block ≡ m / 64
    pub bit : lowest 64 (after.blocks (after.cur_block % size)).occ ≡ some (m % 64)
    pub slot : has ((after.blocks (after.cur_block % size)).slots (m % 64)) ≡ true
    pub same : (c : ℕ) → Perm (held size after c) (held size q c)

  seek-here :
      (fuel : ℕ) (q : PrioQueue T) (pos : ℕ)
      → lowest 64 (here size q two).occ ≡ some pos
      → seek size (suc fuel) q ≡ ok (some q)
  unfolding seek at_block
  seek-here fuel q pos e = ap (λ o. at_block size o q (next_block size q >>= seek size fuel)) e

  seek_on :
      (fuel : ℕ) (q r : PrioQueue T)
      → lowest 64 (here size q two).occ ≡ none
      → next_block size q ≡ ok r
      → seek size (suc fuel) q ≡ seek size fuel r
  unfolding seek at_block
  seek_on fuel q r e n =
      ap (λ o. at_block size o q (next_block size q >>= seek size fuel)) e
      ∙ ap (λ o. o >>= seek size fuel) n

  -- An occupied slot of the current block holds something at its cycle.
  held-here :
      (q : PrioQueue T) (pos : ℕ)
      → pos < 64
      → has ((here size q two).slots pos) ≡ true
      → has (held size q (q.cur_block * 64 + pos)) ≡ true
  unfolding held
  held-here q pos h s =
      let c = q.cur_block * 64 + pos in
      let block : c / 64 ≡ q.cur_block = omega arith in
      let slot : c % 64 ≡ pos = omega arith in
      let e =
        near_in size q.blocks q.cur_block c (omega arith) (omega arith)
        ∙ ap₂ (λ (k p : ℕ). (q.blocks (k % size)).slots p) block slot in
      has-append (near size q.blocks q.cur_block c) (far q.fe_map c) (cc (ap has e, s))

  -- What is held at a cycle of the current block is in its slot.
  held_slot :
      (q : PrioQueue T) (m : ℕ)
      → IsQueue size q
      → m / 64 ≡ q.cur_block
      → held size q m ≡ (here size q two).slots (m % 64)
  unfolding held
  held_slot q m i e =
      ap₂ ◌++◌
        (near_in size q.blocks q.cur_block m (omega arith) (omega arith)
          ∙ ap (λ (k : ℕ). (q.blocks (k % size)).slots (m % 64)) e)
        (far_late q m i (omega arith))
      ∙ append_nil _

  -- The lowest bit of an occupied current block is the first cycle.
  bit_first :
      (q : PrioQueue T) (m pos : ℕ)
      → IsQueue size q
      → IsFirst q m
      → lowest 64 (here size q two).occ ≡ some pos
      → (m / 64 ≡ q.cur_block) × (m % 64 ≡ pos)
  bit_first q m pos i f e =
      let b = here size q two in
      let (lt, on, off) = subst (Lowest b.occ 64) e (lowest-Lowest b.occ 64) in
      let filled = sym (i.bits (q.cur_block % size) pos) ∙ on in
      let h = held-here q pos lt filled in
      let k = q.cur_block * 64 + pos in
      let first : m ≤ k = not_before m k f h in
      let block : m / 64 ≡ q.cur_block = omega (arith, not_past q m i f) in
      let at_m =
        i.bits (q.cur_block % size) (m % 64) ∙ sym (ap has (held_slot q m i block)) ∙ f.some_held in
      elim (dec_lt (m % 64) pos) [
        | yes l ↦ let z = off (m % 64) l in absurd (cc)
        | no l ↦ (block, omega arith)
      ]
    where
      not_before : (m k : ℕ) → IsFirst q m → has (held size q k) ≡ true → m ≤ k
      not_before m k f h = elim (dec_lt k m) [
        | yes l ↦ absurd (cc (ap has (f.none_before k l), h))
        | no l ↦ omega arith
      ]

  IsFirst-same :
      (q r : PrioQueue T) (m : ℕ)
      → ((c : ℕ) → Perm (held size r c) (held size q c))
      → IsFirst q m
      → IsFirst r m
  IsFirst-same q r m p f = record {
    some_held = has-Perm (held size r m) (held size q m) (p m) f.some_held;
    none_before = λ c h. Perm.eq-nil (subst (Perm (held size r c)) (f.none_before c h) (p c));
  }

  pub seek-Found :
      (fuel : ℕ) (q : PrioQueue T) (m : ℕ)
      → IsQueue size q
      → IsFirst q m
      → m / 64 < q.cur_block + fuel
      → Found fuel q m
  seek-Found zero q m i f h = absurd (omega (arith, not_past q m i f))
  seek-Found (suc fuel) q m i f h = elim (Option-cases (lowest 64 (here size q two).occ)) [
    | inr (pos, e) ↦
        let (block, slot) = bit_first q m pos i f e in
        record {
          after = q;
          succeeds = seek-here fuel q pos e;
          queue = i;
          count = refl;
          block = sym block;
          bit = e ∙ ap some (sym slot);
          slot = sym (ap has (held_slot q m i block)) ∙ f.some_held;
          same = λ c. Perm.refl _;
        }
    | inl e ↦
        let n = next_block-Moved size q two i (empty_here size q two e i.bits) in
        let r =
          seek-Found fuel n.after m n.queue (IsFirst-same q n.after m n.same f)
            (omega (arith, n.block)) in
        record {
          after = r.after;
          succeeds = seek_on fuel q n.after e n.succeeds ∙ r.succeeds;
          queue = r.queue;
          count = r.count ∙ n.count;
          block = r.block;
          bit = r.bit;
          slot = r.slot;
          same = λ c. Perm.trans (r.same c) (n.same c);
        }
  ]
