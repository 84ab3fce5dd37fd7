-- ===== src/PrioQueue/Contents.antt =====
-- What the queue holds at each cycle, and what `put_near` and `pull` do to it.
use native.Mathlib.Nat.{mul-le-mul_right, div-add-mod', mod-lt}
use native.Mathlib.Decide.{dec_lt}
use mathlib.Core.List.{Perm, perm_middle}
use mathlib.Core.List.Perm
use bzsim.Base.{
  ℕ, suc, ◌+◌, ◌*◌, ◌/◌, ◌%◌, ◌<◌, ◌≤◌, ◌≡◌, refl, sym, ap, inl, inr, true, false, ◌&&◌, List, [],
  ◌∷◌, ◌++◌, length, ltb, leb, ◌==◌, if◌then◌else◌, update, update-same, update-other, Bool-cases,
  eq_of_==, ==-of-eq, total, total-change, ok, arith,
}
use bzsim.PrioQueue.{Block, enqueue_block, put_near, pull}
use bzsim.PrioQueue.Blocks.{IsBlock, enqueue_block-IsBlock}

-- The far objects of a cycle.
unfoldable pub far : {T : Type 0} → List (ℕ × T) → ℕ → List T
far [] c = []
far ((k, x) ∷ rest) c = let later = far rest c in if k == c then x ∷ later else later

-- Two numbers of a window of `size` with the same remainder are the same.
pub window_inj :
    (size a b cur : ℕ)
    → cur ≤ a
    → a < cur + size
    → cur ≤ b
    → b < cur + size
    → a % size ≡ b % size
    → a ≡ b
window_inj size a b cur ha la hb lb e =
    let x = div-add-mod' a size in
    let y = div-add-mod' b size in
    elim (dec_lt (a / size) (b / size)) [
      | yes l ↦ absurd (omega (arith, x, y, mul-le-mul_right size l))
      | no g ↦ elim (dec_lt (b / size) (a / size)) [
        | yes l ↦ absurd (omega (arith, x, y, mul-le-mul_right size l))
        | no h ↦
            let q : a / size ≡ b / size = omega arith in
            omega (arith, x, y, ap (λ (k : ℕ). k * size) q)
      ]
    ]

pub cycle_inj : (a b : ℕ) → a / 64 ≡ b / 64 → a % 64 ≡ b % 64 → a ≡ b
cycle_inj a b p q = omega arith

module _ {T : Type 0} (size : ℕ) where
  -- The near objects of a cycle: those of its slot, if its block is one of the next `size`.
  unfoldable pub near : (ℕ → Block T) → ℕ → ℕ → List T
  near blocks cur c =
      if leb cur (c / 64) && ltb (c / 64) (cur + size)
      then (blocks (c / 64 % size)).slots (c % 64)
      else []

  pub near_in :
      (blocks : ℕ → Block T) (cur c : ℕ)
      → cur ≤ c / 64
      → c / 64 < cur + size
      → near blocks cur c ≡ (blocks (c / 64 % size)).slots (c % 64)
  unfolding near
  near_in blocks cur c h l =
      let a : leb cur (c / 64) ≡ true = ground arith in
      let b : ltb (c / 64) (cur + size) ≡ true = ground arith in rw (a, b) refl

  pub near_out :
      (blocks : ℕ → Block T) (cur c : ℕ)
      → (leb cur (c / 64) && ltb (c / 64) (cur + size)) ≡ false
      → near blocks cur c ≡ []
  unfolding near
  near_out blocks cur c e = rw (e) refl

  -- What `put_near` does to the slots.
  put_near-slots :
      (blocks : ℕ → Block T) (obj : T) (cycle i p : ℕ)
      → (put_near size blocks obj cycle i).slots p ≡ (
          if cycle / 64 % size == i
          then update (blocks i).slots (cycle % 64) (obj ∷ (blocks i).slots (cycle % 64)) p
          else (blocks i).slots p)
  unfolding put_near enqueue_block
  put_near-slots blocks obj cycle i p = elim (Bool-cases (cycle / 64 % size == i)) [
    | inl e ↦ rw (e) (
        ap (λ (k : ℕ). update (blocks k).slots (cycle % 64) (obj ∷ (blocks k).slots (cycle % 64)) p)
          (eq_of_== _ i e))
    | inr e ↦ rw (e) refl
  ]

  -- What is put_near into a block near enough is at its cycle, and nothing else has changed.
  pub near-put_near :
      (blocks : ℕ → Block T) (obj : T) (cur cycle c : ℕ)
      → cur ≤ cycle / 64
      → cycle / 64 < cur + size
      → near (put_near size blocks obj cycle) cur c
        ≡ (if cycle == c then obj ∷ near blocks cur c else near blocks cur c)
  near-put_near blocks obj cur cycle c h l =
      elim (Bool-cases (leb cur (c / 64) && ltb (c / 64) (cur + size))) [
        | inr out ↦
            let ne : (cycle == c) ≡ false = outside out in
            rw (ne, near_out (put_near size blocks obj cycle) cur c out, near_out blocks cur c out)
              refl
        | inl within ↦
            let a : cur ≤ c / 64 = ground arith in
            let b : c / 64 < cur + size = ground arith in
            rw
              (
                near_in (put_near size blocks obj cycle) cur c a b,
                near_in blocks cur c a b,
                put_near-slots blocks obj cycle (c / 64 % size) (c % 64),
              )
              (same_slot a b)
      ]
    where
      outside : (leb cur (c / 64) && ltb (c / 64) (cur + size)) ≡ false → (cycle == c) ≡ false
      outside out = elim (Bool-cases (cycle == c)) [
        | inr d ↦ d
        | inl d ↦ let q = ap (λ (k : ℕ). k / 64) (eq_of_== cycle c d) in absurd (ground arith)
      ]

      same_slot :
          cur ≤ c / 64
          → c / 64 < cur + size
          → (if cycle / 64 % size == c / 64 % size
              then update
                  (blocks (c / 64 % size)).slots
                  (cycle % 64)
                  (obj ∷ (blocks (c / 64 % size)).slots (cycle % 64))
                  (c % 64)
              else (blocks (c / 64 % size)).slots (c % 64))
            ≡ (if cycle == c
                then obj ∷ (blocks (c / 64 % size)).slots (c % 64)
                else (blocks (c / 64 % size)).slots (c % 64))
      same_slot a b = elim (Bool-cases (cycle == c)) [
        | inl e ↦
            let q = eq_of_== cycle c e in
            let i =
              ==-of-eq (cycle / 64 % size) (c / 64 % size) (ap (λ (k : ℕ). k / 64 % size) q) in
            let j = ap (λ (k : ℕ). k % 64) q in rw (e, i, j, ==-of-eq (c % 64) (c % 64) refl) refl
        | inr e ↦ rw (e) (elim (Bool-cases (cycle / 64 % size == c / 64 % size)) [
          | inr i ↦ rw (i) refl
          | inl i ↦
              let block = window_inj size (cycle / 64) (c / 64) cur h l a b (eq_of_== _ _ i) in
              let d : (cycle % 64 == c % 64) ≡ false = differ block e in rw (i, d) refl
        ])
      ]
        where
          differ : cycle / 64 ≡ c / 64 → (cycle == c) ≡ false → (cycle % 64 == c % 64) ≡ false
          differ block e = elim (Bool-cases (cycle % 64 == c % 64)) [
            | inr d ↦ d
            | inl d ↦
                let q = ==-of-eq cycle c (cycle_inj cycle c block (eq_of_== _ _ d)) in absurd (cc)
          ]

-- Every far cycle is `n` or later, and the map is in order.
abbrev pub AllFrom : {T : Type 0} → ℕ → List (ℕ × T) → Type 0
AllFrom n [] = Unit
AllFrom n ((k, x) ∷ rest) = (n ≤ k) × AllFrom n rest

abbrev pub IsOrdered : {T : Type 0} → List (ℕ × T) → Type 0
IsOrdered [] = Unit
IsOrdered ((k, x) ∷ rest) = AllFrom k rest × IsOrdered rest

pub AllFrom-mono : {T : Type 0} (m n : ℕ) (l : List (ℕ × T)) → m ≤ n → AllFrom n l → AllFrom m l
AllFrom-mono m n [] h a = tt
AllFrom-mono m n ((k, x) ∷ rest) h (b, a) = (omega arith, AllFrom-mono m n rest h a)

module _ {T : Type 0} (size : ℕ) where
  -- How many objects the blocks hold.
  abbrev pub in_block : Block T → ℕ
  in_block b = total 64 (λ p. length (b.slots p))

  abbrev pub stored : (ℕ → Block T) → ℕ
  stored blocks = total size (λ i. in_block (blocks i))

  pub stored-update :
      (blocks : ℕ → Block T) (i : ℕ) (b : Block T)
      → i < size
      → stored (update blocks i b) + in_block (blocks i) ≡ stored blocks + in_block b
  stored-update blocks i b h =
      let e =
        total-change size (λ j. in_block (blocks j)) (λ j. in_block (update blocks i b j)) i h
          (λ j ne.
            ap (λ (k : Block T). in_block k) (update-other blocks i b j (λ q. ne (sym q)))) in
      let s = ap (λ (k : Block T). in_block k) (update-same blocks i b) in omega (arith, e, s)

  in_block-enqueue :
      (b : Block T) (obj : T) (pos : ℕ)
      → pos < 64
      → in_block (enqueue_block b obj pos) ≡ suc (in_block b)
  unfolding enqueue_block
  in_block-enqueue b obj pos h =
      let new = obj ∷ b.slots pos in
      let e =
        total-change 64 (λ p. length (b.slots p)) (λ p. length (update b.slots pos new p)) pos h
          (λ j ne.
            ap (λ (k : List T). length k) (update-other b.slots pos new j (λ q. ne (sym q)))) in
      let s = ap (λ (k : List T). length k) (update-same b.slots pos new) in omega (arith, e, s)

  pub stored-put_near :
      (blocks : ℕ → Block T) (obj : T) (cycle : ℕ)
      → 0 < size
      → stored (put_near size blocks obj cycle) ≡ suc (stored blocks)
  unfolding put_near
  stored-put_near blocks obj cycle h =
      let i = cycle / 64 % size in
      let b = enqueue_block (blocks i) obj (cycle % 64) in
      let u = stored-update blocks i b (mod-lt (cycle / 64) h) in
      let e = in_block-enqueue (blocks i) obj (cycle % 64) (omega arith) in omega (arith, u, e)

  pub put_near-IsBlock :
      (blocks : ℕ → Block T) (obj : T) (cycle : ℕ)
      → ((i : ℕ) → IsBlock (blocks i))
      → (i : ℕ) → IsBlock (put_near size blocks obj cycle i)
  unfolding put_near
  put_near-IsBlock blocks obj cycle h i = elim (Bool-cases (cycle / 64 % size == i)) [
    | inl e ↦ rw (e) (enqueue_block-IsBlock (blocks (cycle / 64 % size)) obj (cycle % 64) (h _))
    | inr e ↦ rw (e) (h i)
  ]

  -- An object that moves from the map to its block is still at its cycle.
  moved :
      (blocks : ℕ → Block T) (x : T) (cur k c : ℕ) (fe : List (ℕ × T))
      → cur ≤ k / 64
      → k / 64 < cur + size
      → Perm
          (near size (put_near size blocks x k) cur c ++ far fe c)
          (near size blocks cur c ++ (if k == c then x ∷ far fe c else far fe c))
  moved blocks x cur k c fe h l = elim (Bool-cases (k == c)) [
    | inl e ↦
        rw (near-put_near size blocks x cur k c h l, e)
          (Perm.symm (perm_middle (near size blocks cur c) (far fe c)))
    | inr e ↦ rw (near-put_near size blocks x cur k c h l, e) (Perm.refl _)
  ]

  -- What `pull` leaves: the same objects at each cycle, and nothing far before `top`.
  pub record Pulled (top cur : ℕ) (blocks : ℕ → Block T) (fe : List (ℕ × T)) : Type 0 where
    pub after : ℕ → Block T
    pub rest : List (ℕ × T)
    pub succeeds : pull size top cur blocks fe ≡ ok (after, rest)
    pub bits : (i : ℕ) → IsBlock (after i)
    pub same :
        (c : ℕ) → Perm (near size after cur c ++ far rest c) (near size blocks cur c ++ far fe c)
    pub counted : stored after + length rest ≡ stored blocks + length fe
    pub left : AllFrom top rest
    pub ordered : IsOrdered rest

  pub pull-Pulled :
      (cur : ℕ) (blocks : ℕ → Block T) (fe : List (ℕ × T))
      → 0 < size
      → ((i : ℕ) → IsBlock (blocks i))
      → AllFrom (cur * 64) fe
      → IsOrdered fe
      → Pulled ((cur + size) * 64) cur blocks fe
  unfolding pull far
  pull-Pulled cur blocks [] z b a o = record {
    after = blocks;
    rest = [];
    succeeds = refl;
    bits = b;
    same = λ c. Perm.refl _;
    counted = refl;
    left = tt;
    ordered = tt;
  }
  pull-Pulled cur blocks ((k, x) ∷ fe) z b (a, as_) (o, os) =
      elim (Bool-cases (ltb k ((cur + size) * 64))) [
        | inr late ↦ record {
          after = blocks;
          rest = (k, x) ∷ fe;
          succeeds = rw (late) refl;
          bits = b;
          same = λ c. Perm.refl _;
          counted = refl;
          left = (ground arith, AllFrom-mono ((cur + size) * 64) k fe (ground arith) o);
          ordered = (o, os);
        }
        | inl soon ↦
            let from : leb cur (k / 64) ≡ true = ground arith in
            let below : ltb (k / 64) (cur + size) ≡ true = ground arith in
            let p =
              pull-Pulled cur (put_near size blocks x k) fe z (put_near-IsBlock blocks x k b) as_
                os in
            record {
              after = p.after;
              rest = p.rest;
              succeeds = rw (soon, from, below) p.succeeds;
              bits = p.bits;
              same = λ c.
                  Perm.trans (p.same c) (moved blocks x cur k c fe (ground arith) (ground arith));
              counted = omega (arith, p.counted, stored-put_near blocks x k z);
              left = p.left;
              ordered = p.ordered;
            }
      ]
