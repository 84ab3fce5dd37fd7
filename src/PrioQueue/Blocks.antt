-- ===== src/PrioQueue/Blocks.antt =====
-- A block of 64 cycles: its word tells which slots are populated, and its first object is taken out.
use bzsim.Base.{
  ℕ, zero, suc, ◌<◌, ◌≡◌, refl, ap, ◌∙◌, subst, inl, inr, Bool, true, false, not, Option, none,
  some, List, [], ◌∷◌, ◌==◌, if◌then◌else◌, update, Bool-cases, eq_of_==, below_suc, ok, arith,
}
use bzsim.PrioQueue.{Block, lowest, enqueue_block, take_first, dequeue_block}

-- A slot with objects.
abbrev pub has : {T : Type 0} → List T → Bool
has [] = false
has (x ∷ xs) = true

-- The bits tell the populated slots.
abbrev pub IsBlock : {T : Type 0} → Block T → Type 0
IsBlock b = (pos : ℕ) → b.occ pos ≡ has (b.slots pos)

-- What the search for the lowest bit has found among the first `n`.
abbrev pub Lowest : (ℕ → Bool) → ℕ → Option ℕ → Type 0
Lowest occ n none = (p : ℕ) → p < n → occ p ≡ false
Lowest occ n (some k) = (k < n) × (occ k ≡ true) × ((p : ℕ) → p < k → occ p ≡ false)

pub lowest-Lowest : (occ : ℕ → Bool) (n : ℕ) → Lowest occ n (lowest n occ)
unfolding lowest
lowest-Lowest occ zero = λ p h. absurd (omega arith)
lowest-Lowest occ (suc n) = step (lowest n occ) (lowest-Lowest occ n)
  where
    step :
        (o : Option ℕ)
        → Lowest occ n o
        → Lowest occ (suc n) (elim o [ some k ↦ some k | none ↦ if occ n then some n else none ])
    step (some k) (h, e, f) = (omega arith, e, f)
    step none f = elim (Bool-cases (occ n)) [
      | inl e ↦ rw (e) (omega arith, e, f)
      | inr e ↦ rw (e) (below_suc {P = λ p. occ p ≡ false} n f e)
    ]

pub enqueue_block-IsBlock :
    {T : Type 0} (b : Block T) (obj : T) (pos : ℕ) → IsBlock b → IsBlock (enqueue_block b obj pos)
unfolding enqueue_block
enqueue_block-IsBlock b obj pos h p = elim (Bool-cases (pos == p)) [
  | inl e ↦ rw (e) refl
  | inr e ↦ rw (e) (h p)
]

front :
    {T : Type 0} (b : Block T) (pos : ℕ)
    → lowest 64 b.occ ≡ some pos
    → dequeue_block b ≡ take_first b pos (b.slots pos)
unfolding dequeue_block
front b pos e = rw (e, dequeue_block) refl

-- The block after the first object of the slot `pos` has left.
pub record Taken {T : Type 0} (b : Block T) (pos : ℕ) (x : T) (xs : List T) : Type 0 where
  pub after : Block T
  pub succeeds : dequeue_block b ≡ ok (after, x, pos)
  pub slots : (p : ℕ) → after.slots p ≡ update b.slots pos xs p
  pub bits : IsBlock after

pub dequeue_block-Taken :
    {T : Type 0} (b : Block T) (pos : ℕ) (x : T) (xs : List T)
    → IsBlock b
    → lowest 64 b.occ ≡ some pos
    → b.slots pos ≡ x ∷ xs
    → Taken b pos x xs
unfolding take_first
dequeue_block-Taken b pos x [] h e s = record {
  after = record b { slots = update b.slots pos []; occ = update b.occ pos (not (b.occ pos)) };
  succeeds = front b pos e ∙ ap (take_first b pos) s;
  slots = λ p. refl;
  bits = λ p. elim (Bool-cases (pos == p)) [
    | inl q ↦ rw (q) (ap not (h pos ∙ ap has s))
    | inr q ↦ rw (q) (h p)
  ];
}
dequeue_block-Taken b pos x (y ∷ xs) h e s = record {
  after = record b { slots = update b.slots pos (y ∷ xs) };
  succeeds = front b pos e ∙ ap (take_first b pos) s;
  slots = λ p. refl;
  bits = λ p. elim (Bool-cases (pos == p)) [
    | inl q ↦ rw (q) (subst (λ k. b.occ k ≡ true) (eq_of_== pos p q) (h pos ∙ ap has s))
    | inr q ↦ rw (q) (h p)
  ];
}
