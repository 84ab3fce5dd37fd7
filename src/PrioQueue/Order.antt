-- ===== src/PrioQueue/Order.antt =====
-- The queue as a priority queue: what `enqueue` adds is at its cycle, and `dequeue` takes an object
-- of the least cycle.
use native.Mathlib.Nat.{div-mul-le_self}
use mathlib.Core.List.{Perm, perm_middle}
use mathlib.Core.List.Perm
use bzsim.Base.{
  ℕ, ◌+◌, ◌*◌, ◌/◌, ◌<◌, ◌≤◌, ◌≡◌, refl, subst, inl, inr, Bool, true, false, ◌&&◌, List, [], ◌∷◌,
  ◌++◌, length, ltb, leb, ◌==◌, if◌then◌else◌, Bool-cases, total, total-zero, ok, arith,
}
use bzsim.PrioQueue.{empty_block, PrioQueue, insert_far, put_near, init, enqueue}
use bzsim.PrioQueue.Blocks.{IsBlock}
use bzsim.PrioQueue.Far.{
  far-insert_far, AllFrom-insert_far, IsOrdered-insert_far, length-insert_far,
}
use bzsim.PrioQueue.Contents.{
  far, near, near-put_near, AllFrom, IsOrdered, stored, stored-put_near, put_near-IsBlock,
}

-- The far elements lie beyond the blocks that were there at the last half circle.
abbrev pub horizon : ℕ → ℕ → ℕ
horizon size cur = (cur / (size / 2) * (size / 2) + size) * 64

module _ {T : Type 0} (size : ℕ) where
  -- What the queue holds at a cycle.
  unfoldable pub held : PrioQueue T → ℕ → List T
  held q c = near size q.blocks q.cur_block c ++ far q.fe_map c

  pub record IsQueue (q : PrioQueue T) : Type 0 where
    pub bits : (i : ℕ) → IsBlock (q.blocks i)
    pub far_away : AllFrom (horizon size q.cur_block) q.fe_map
    pub ordered : IsOrdered q.fe_map
    pub counted : q.elems ≡ stored size q.blocks + length q.fe_map

  -- `q` with another object at a cycle.
  pub record Added (q : PrioQueue T) (obj : T) (cycle : ℕ) : Type 0 where
    pub after : PrioQueue T
    pub succeeds : enqueue size q obj cycle ≡ ok after
    pub queue : IsQueue after
    pub more : (c : ℕ) → Perm (held after c) (if cycle == c then obj ∷ held q c else held q c)

  -- An object is added at a cycle that is not in a past block: `enqueue` succeeds, keeps the queue
  -- well-formed, and changes what is held at this cycle only, where the object joins the others.
  pub enqueue-Added :
      (q : PrioQueue T) (obj : T) (cycle : ℕ)
      → 2 ≤ size
      → IsQueue q
      → q.cur_block ≤ cycle / 64
      → Added q obj cycle
  unfolding enqueue held
  enqueue-Added q obj cycle two i h =
      let now : leb q.cur_block (cycle / 64) ≡ true = ground arith in
      elim (Bool-cases (ltb (cycle / 64) (q.cur_block + size))) [
        | inl e ↦ record {
          after = record q { blocks = put_near size q.blocks obj cycle; elems = q.elems + 1 };
          succeeds = rw (now, e) refl;
          queue = record {
            bits = put_near-IsBlock size q.blocks obj cycle i.bits;
            far_away = i.far_away;
            ordered = i.ordered;
            counted =
                omega (arith, i.counted, stored-put_near size q.blocks obj cycle (omega arith));
          };
          more = λ c. near_more c (ground arith);
        }
        | inr e ↦ record {
          after = record q { fe_map = insert_far cycle obj q.fe_map; elems = q.elems + 1 };
          succeeds = rw (now, e) refl;
          queue = record {
            bits = i.bits;
            far_away =
                AllFrom-insert_far _ cycle obj q.fe_map
                  (omega (arith, div-mul-le_self q.cur_block (size / 2), over e)) i.far_away;
            ordered = IsOrdered-insert_far cycle obj q.fe_map i.ordered;
            counted = omega (arith, i.counted, length-insert_far cycle obj q.fe_map);
          };
          more = far_more;
        }
      ]
    where
      over : ltb (cycle / 64) (q.cur_block + size) ≡ false → q.cur_block + size ≤ cycle / 64
      over e = ground arith

      near_more :
          (c : ℕ)
          → cycle / 64 < q.cur_block + size
          → Perm (near size (put_near size q.blocks obj cycle) q.cur_block c ++ far q.fe_map c) (
              if cycle == c
              then obj ∷ (near size q.blocks q.cur_block c ++ far q.fe_map c)
              else near size q.blocks q.cur_block c ++ far q.fe_map c)
      near_more c l = elim (Bool-cases (cycle == c)) [
        | inl e ↦ rw (near-put_near size q.blocks obj q.cur_block cycle c h l, e) (Perm.refl _)
        | inr e ↦ rw (near-put_near size q.blocks obj q.cur_block cycle c h l, e) (Perm.refl _)
      ]

      far_more :
          (c : ℕ)
          → Perm (near size q.blocks q.cur_block c ++ far (insert_far cycle obj q.fe_map) c) (
              if cycle == c
              then obj ∷ (near size q.blocks q.cur_block c ++ far q.fe_map c)
              else near size q.blocks q.cur_block c ++ far q.fe_map c)
      far_more c = elim (Bool-cases (cycle == c)) [
        | inl e ↦ rw (e) (Perm.trans (Perm.append_left _ (inserted c true e)) (perm_middle _ _))
        | inr e ↦ rw (e) (Perm.append_left _ (inserted c false e))
      ]
        where
          inserted :
              (c : ℕ) (b : Bool)
              → (cycle == c) ≡ b
              → Perm
                  (far (insert_far cycle obj q.fe_map) c)
                  (if b then obj ∷ far q.fe_map c else far q.fe_map c)
          inserted c b e =
              subst
                (λ t.
                  Perm (far (insert_far cycle obj q.fe_map) c)
                    (if t then obj ∷ far q.fe_map c else far q.fe_map c))
                e (far-insert_far cycle obj q.fe_map c)

-- The constructor's queue is well-formed and holds nothing.
pub init-IsQueue : (T : Type 0) (size : ℕ) → IsQueue size (init {T = T} size)
unfolding init empty_block
init-IsQueue T size = record {
  bits = λ i p. refl;
  far_away = tt;
  ordered = tt;
  counted = omega (
    arith,
    total-zero size (λ i. total 64 (λ p. 0)) (λ i h. total-zero 64 (λ p. 0) (λ p l. refl)),
  );
}

pub held-init : (T : Type 0) (size c : ℕ) → held size (init {T = T} size) c ≡ []
unfolding held init empty_block near far
held-init T size c = elim (Bool-cases (leb 0 (c / 64) && ltb (c / 64) (0 + size))) [
  | inl e ↦ rw (e) refl
  | inr e ↦ rw (e) refl
]
