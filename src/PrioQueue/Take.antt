-- ===== src/PrioQueue/Take.antt =====
-- What the blocks hold once an object has been taken from its slot.
use mathlib.Core.List.{Perm}
use mathlib.Core.List.Perm
use bzsim.Base.{
  ℕ, suc, ◌+◌, ◌-◌, ◌/◌, ◌%◌, ◌<◌, ◌≤◌, ◌≡◌, ◌≢◌, refl, sym, ap, ◌∙◌, inl, inr, false, ◌&&◌, List,
  ◌∷◌, length, ltb, leb, ◌==◌, if◌then◌else◌, update, update-same, update-other, Bool-cases,
  eq_of_==, ==-of-eq, total-change, arith,
}
use bzsim.PrioQueue.{Block, PrioQueue}
use bzsim.PrioQueue.Blocks.{IsBlock}
use bzsim.PrioQueue.Contents.{near, near_in, near_out, in_block, window_inj, cycle_inj}
use bzsim.PrioQueue.Order.{held}
use bzsim.PrioQueue.Dequeue.{here}

module _ {T : Type 0} (size : ℕ) (two : 2 ≤ size) where
  -- One object leaves the current block.
  pub in_block-take :
      (b a : Block T) (pos : ℕ) (x : T) (xs : List T)
      → pos < 64
      → b.slots pos ≡ x ∷ xs
      → ((p : ℕ) → a.slots p ≡ update b.slots pos xs p)
      → in_block size b ≡ suc (in_block size a)
  in_block-take b a pos x xs h e s =
      let c =
        total-change 64 (λ p. length (b.slots p)) (λ p. length (a.slots p)) pos h
          (λ j ne.
            ap (λ (k : List T). length k)
              (s j ∙ update-other b.slots pos xs j (λ q. ne (sym q)))) in
      let n = ap (λ (k : List T). length k) (s pos ∙ update-same b.slots pos xs) in
      let o = ap (λ (k : List T). length k) e in omega (arith, c, n, o)

  -- Near the current block, the object is gone from its cycle, and nothing else has changed.
  near-take :
      (q : PrioQueue T) (a : Block T) (m : ℕ) (x : T) (xs : List T)
      → m / 64 ≡ q.cur_block
      → (here size q two).slots (m % 64) ≡ x ∷ xs
      → ((p : ℕ) → a.slots p ≡ update (here size q two).slots (m % 64) xs p)
      → (c : ℕ)
      → near size q.blocks q.cur_block c ≡ (
          if m == c
          then x ∷ near size (update q.blocks (q.cur_block % size) a) q.cur_block c
          else near size (update q.blocks (q.cur_block % size) a) q.cur_block c)
  near-take q a m x xs e s u c =
      elim (Bool-cases (leb q.cur_block (c / 64) && ltb (c / 64) (q.cur_block + size))) [
        | inr out ↦
            let ne : (m == c) ≡ false =
              differs (λ r. let t = ap (λ (k : ℕ). k / 64) r in ground arith) in
            rw (ne) (
              near_out size q.blocks q.cur_block c out
              ∙ sym (near_out size (update q.blocks (q.cur_block % size) a) q.cur_block c out))
        | inl within ↦
            let l : q.cur_block ≤ c / 64 = ground arith in
            let h : c / 64 < q.cur_block + size = ground arith in
            rw
              (
                near_in size q.blocks q.cur_block c l h,
                near_in size (update q.blocks (q.cur_block % size) a) q.cur_block c l h,
              )
              (slot_take l h)
      ]
    where
      differs : m ≢ c → (m == c) ≡ false
      differs ne = elim (Bool-cases (m == c)) [ inl t ↦ absurd (ne (eq_of_== m c t)) | inr t ↦ t ]

      slot_take :
          q.cur_block ≤ c / 64
          → c / 64 < q.cur_block + size
          → (q.blocks (c / 64 % size)).slots (c % 64) ≡ (
              if m == c
              then x ∷ (update q.blocks (q.cur_block % size) a (c / 64 % size)).slots (c % 64)
              else (update q.blocks (q.cur_block % size) a (c / 64 % size)).slots (c % 64))
      slot_take l h = elim (Bool-cases (q.cur_block % size == c / 64 % size)) [
        | inr other ↦
            let ne : (m == c) ≡ false = differs (λ r.
              let t =
                ==-of-eq (q.cur_block % size) (c / 64 % size)
                  (ap (λ (k : ℕ). k % size) (sym e) ∙ ap (λ (k : ℕ). k / 64 % size) r) in
              absurd (cc)) in
            rw (ne, other) refl
        | inl same ↦
            let block =
              window_inj size q.cur_block (c / 64) q.cur_block (omega arith) (omega arith) l h
                (eq_of_== _ _ same) in
            let old : (q.blocks (c / 64 % size)).slots (c % 64) ≡ (here size q two).slots (c % 64) =
              ap (λ (k : ℕ). (q.blocks k).slots (c % 64)) (sym (eq_of_== _ _ same)) in
            rw (same) (
              old ∙ elim (Bool-cases (m == c)) [
                | inl r ↦
                    let t = ap (λ (k : ℕ). k % 64) (eq_of_== m c r) in
                    rw (r) (
                      ap (here size q two).slots (sym t)
                      ∙ s
                      ∙ ap (λ (k : List T). x ∷ k) (sym (u (c % 64) ∙ rw (==-of-eq _ _ t) refl)))
                | inr r ↦
                    let d : (m % 64 == c % 64) ≡ false = slot_differs r (e ∙ block) in
                    rw (r) (sym (u (c % 64) ∙ rw (d) refl))
              ])
      ]
        where
          slot_differs : (m == c) ≡ false → m / 64 ≡ c / 64 → (m % 64 == c % 64) ≡ false
          slot_differs r b = elim (Bool-cases (m % 64 == c % 64)) [
            | inr d ↦ d
            | inl d ↦ let z = ==-of-eq m c (cycle_inj m c b (eq_of_== _ _ d)) in absurd (cc)
          ]

  pub update-IsBlock :
      (blocks : ℕ → Block T) (k : ℕ) (a : Block T)
      → ((i : ℕ) → IsBlock (blocks i))
      → IsBlock a
      → (i : ℕ) → IsBlock (update blocks k a i)
  update-IsBlock blocks k a h b i = elim (Bool-cases (k == i)) [
    | inl e ↦ rw (e) b
    | inr e ↦ rw (e) (h i)
  ]

  pub held-take :
      (q : PrioQueue T) (a : Block T) (m : ℕ) (x : T) (xs : List T)
      → m / 64 ≡ q.cur_block
      → (here size q two).slots (m % 64) ≡ x ∷ xs
      → ((p : ℕ) → a.slots p ≡ update (here size q two).slots (m % 64) xs p)
      → (c : ℕ)
      → Perm (held size q c) (
          if m == c
          then x
            ∷ held size
                (record q { blocks = update q.blocks (q.cur_block % size) a; elems = q.elems - 1 })
                c
          else held size
              (record q { blocks = update q.blocks (q.cur_block % size) a; elems = q.elems - 1 })
              c)
  unfolding held
  held-take q a m x xs e s u c =
      let n = near-take q a m x xs e s u c in
      elim (Bool-cases (m == c)) [
        | inl r ↦ rw (n, r) (Perm.refl _)
        | inr r ↦ rw (n, r) (Perm.refl _)
      ]
