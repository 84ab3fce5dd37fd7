-- ===== src/PrioQueue/Dequeue.antt =====
-- `dequeue`: the loop finds the first occupied block, and the object taken there has the least cycle.
use native.Mathlib.Nat.{mod-lt, add-mod_right, div-add-mod', mul-le-mul_right}
use native.Mathlib.Decide.{dec_lt}
use mathlib.Core.List.{Perm}
use mathlib.Core.List.Perm
use bzsim.Base.{
  ℕ, suc, ◌+◌, ◌*◌, ◌/◌, ◌%◌, ◌<◌, ◌≤◌, ◌≡◌, refl, sym, ap, ◌∙◌, subst, inl, inr, true, false, none,
  List, [], ◌∷◌, ◌++◌, ◌==◌, Bool-cases, eq_of_==, ok, arith,
}
use bzsim.PrioQueue.{Block, PrioQueue, lowest, next_block}
use bzsim.PrioQueue.Blocks.{IsBlock, has, Lowest, lowest-Lowest}
use bzsim.PrioQueue.Contents.{far, near, near_in, near_out, AllFrom, AllFrom-mono, pull-Pulled}
use bzsim.PrioQueue.Order.{held, horizon, IsQueue}

-- Another block is in the window once the current one is behind: it has the current one's slots.
module _ {T : Type 0} (size : ℕ) (q : PrioQueue T) (two : 2 ≤ size) where
  abbrev pub here : Block T
  here = q.blocks (q.cur_block % size)

  -- The current block is empty.
  pub empty_here :
      lowest 64 here.occ ≡ none
      → ((i : ℕ) → IsBlock (q.blocks i))
      → (p : ℕ) → p < 64
      → here.slots p ≡ []
  empty_here e b p h =
      let f = subst (Lowest here.occ 64) e (lowest-Lowest here.occ 64) in
      no_objects (here.slots p) (sym (b (q.cur_block % size) p) ∙ f p h)
    where
      no_objects : (l : List T) → has l ≡ false → l ≡ []
      no_objects [] h = refl
      no_objects (x ∷ xs) h = cc

  slot_empty :
      ((p : ℕ) → p < 64 → here.slots p ≡ [])
      → (c : ℕ) → c / 64 % size ≡ q.cur_block % size
      → (q.blocks (c / 64 % size)).slots (c % 64) ≡ []
  slot_empty e c m = ap (λ (k : ℕ). (q.blocks k).slots (c % 64)) m ∙ e (c % 64) (omega arith)

  at_end : (b : ℕ) → q.cur_block + size ≤ b → b < q.cur_block + size + 1 → b ≡ q.cur_block + size
  at_end b h l = omega arith

  at_start : (b : ℕ) → q.cur_block ≤ b → b ≤ q.cur_block → b ≡ q.cur_block
  at_start b h l = omega arith

  -- The window moves on by a block, and nothing near has moved.
  near_next :
      ((p : ℕ) → p < 64 → here.slots p ≡ [])
      → (c : ℕ) → near size q.blocks (suc q.cur_block) c ≡ near size q.blocks q.cur_block c
  near_next e c = elim (dec_lt (c / 64) q.cur_block) [
    | yes past ↦
        near_out size q.blocks (suc q.cur_block) c (ground arith)
        ∙ sym (near_out size q.blocks q.cur_block c (ground arith))
    | no not_past ↦ elim (dec_lt (c / 64) (q.cur_block + size)) [
      | no far_off ↦ elim (dec_lt (c / 64) (q.cur_block + size + 1)) [
        | yes new ↦
            near_in size q.blocks (suc q.cur_block) c (omega arith) (omega arith)
            ∙ slot_empty e c (
                ap (λ (k : ℕ). k % size) (at_end (c / 64) (omega arith) (omega arith))
                ∙ add-mod_right q.cur_block size)
            ∙ sym (near_out size q.blocks q.cur_block c (ground arith))
        | no later ↦
            near_out size q.blocks (suc q.cur_block) c (ground arith)
            ∙ sym (near_out size q.blocks q.cur_block c (ground arith))
      ]
      | yes within ↦ elim (dec_lt q.cur_block (c / 64)) [
        | yes ahead ↦
            near_in size q.blocks (suc q.cur_block) c (omega arith) (omega arith)
            ∙ sym (near_in size q.blocks q.cur_block c (omega arith) within)
        | no current ↦
            near_out size q.blocks (suc q.cur_block) c (ground arith)
            ∙ sym (
                near_in size q.blocks q.cur_block c (omega arith) within
                ∙ slot_empty e c
                    (ap (λ (k : ℕ). k % size) (at_start (c / 64) (omega arith) (omega arith))))
      ]
    ]
  ]

  -- The next block's horizon, where no far element is pulled and where some are.
  horizon_same :
      0 < size / 2
      → (suc q.cur_block % (size / 2) == 0) ≡ false
      → horizon size (suc q.cur_block) ≤ horizon size q.cur_block
  horizon_same pos ne =
      let h = size / 2 in
      let a = div-add-mod' (suc q.cur_block) h in
      let b = div-add-mod' q.cur_block h in
      let la = mod-lt (suc q.cur_block) pos in
      let lb = mod-lt q.cur_block pos in
      let some_left : 0 < suc q.cur_block % h = ground arith in
      elim (dec_lt (q.cur_block / h) (suc q.cur_block / h)) [
        | yes l ↦ absurd (omega (arith, a, b, la, lb, some_left, mul-le-mul_right h l))
        | no l ↦
            let m : suc q.cur_block / h ≤ q.cur_block / h = omega arith in
            omega (arith, mul-le-mul_right h m)
      ]

  horizon_next :
      (suc q.cur_block % (size / 2) == 0) ≡ true
      → horizon size (suc q.cur_block) ≡ (suc q.cur_block + size) * 64
  horizon_next e =
      let a = div-add-mod' (suc q.cur_block) (size / 2) in
      let z = eq_of_== (suc q.cur_block % (size / 2)) 0 e in omega (arith, a, z)

  pub horizon_beyond : 0 < size / 2 → suc q.cur_block * 64 ≤ horizon size q.cur_block
  horizon_beyond pos =
      let b = div-add-mod' q.cur_block (size / 2) in
      let lb = mod-lt q.cur_block pos in omega (arith, b, lb)

  -- A round of the loop.
  pub record Moved : Type 0 where
    pub after : PrioQueue T
    pub succeeds : next_block size q ≡ ok after
    pub queue : IsQueue size after
    pub count : after.elems ≡ q.elems
    pub block : after.cur_block ≡ suc q.cur_block
    pub same : (c : ℕ) → Perm (held size after c) (held size q c)

  pub next_block-Moved : IsQueue size q → ((p : ℕ) → p < 64 → here.slots p ≡ []) → Moved
  unfolding next_block held
  next_block-Moved i e = elim (Bool-cases (suc q.cur_block % (size / 2) == 0)) [
    | inl half ↦
        let p =
          pull-Pulled size (suc q.cur_block) q.blocks q.fe_map (omega arith) i.bits
            (AllFrom-mono _ _ q.fe_map (horizon_beyond (omega arith)) i.far_away) i.ordered in
        record {
          after = record q { cur_block = suc q.cur_block; blocks = p.after; fe_map = p.rest };
          succeeds = rw (half, p.succeeds) refl;
          queue = record {
            bits = p.bits;
            far_away = subst (λ n. AllFrom n p.rest) (sym (horizon_next half)) p.left;
            ordered = p.ordered;
            counted = omega (arith, i.counted, p.counted);
          };
          count = refl;
          block = refl;
          same = λ c.
              subst (Perm _) (ap (λ (l : List T). l ++ far q.fe_map c) (near_next e c)) (p.same c);
        }
    | inr part ↦ record {
      after = record q { cur_block = suc q.cur_block };
      succeeds = rw (part) refl;
      queue = record {
        bits = i.bits;
        far_away = AllFrom-mono _ _ q.fe_map (horizon_same (omega arith) part) i.far_away;
        ordered = i.ordered;
        counted = i.counted;
      };
      count = refl;
      block = refl;
      same = λ c.
          subst (Perm _) (ap (λ (l : List T). l ++ far q.fe_map c) (near_next e c)) (Perm.refl _);
    }
  ]
