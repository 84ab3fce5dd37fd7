-- ===== src/Replacement/TreeLru/Spared.antt =====
-- `getBestCandidate` of `TreeLRUReplPolicy` ends, and never chooses the newest candidate.
use bzsim.Base.{
  ℕ, zero, suc, ◌+◌, ◌-◌, ◌/◌, ◌≤◌, ◌<◌, ◌≡◌, ◌≢◌, inl, inr, refl, Bool, true, false, ltb, some,
  ◌==◌, arith, Bool-cases, ap, ◌∙◌, ok, ==-of-eq,
}
use native.Mathlib.Decide.{dec_lt}
use bzsim.Replacement.TreeLru.{TreeLru, newest, narrow_down, get_best_candidate}

-- The timestamp of a candidate.
abbrev pub age : TreeLru → ℕ → ℕ
age r j = r.array (r.cand_array j)

le-newest : (r : TreeLru) (i n j : ℕ) → i ≤ j → j < i + n → age r j ≤ newest r i n
unfolding newest
le-newest r i zero j h l = absurd (omega arith)
le-newest r i (suc n) j h l = elim (dec_lt j (i + n)) [
  | yes p ↦ omega (arith, le-newest r i n j h p)
  | no p ↦ let e : i + n ≡ j = omega arith in omega (arith, ap (age r) e)
]

newest-lt :
    (r : TreeLru) (i n v : ℕ)
    → 0 < v
    → ((j : ℕ) → i ≤ j → j < i + n → age r j < v)
    → newest r i n < v
unfolding newest
newest-lt r i zero v z h = z
newest-lt r i (suc n) v z h = omega (
  arith,
  newest-lt r i n v z (λ j l u. h j l (omega arith)),
  h (i + n) (omega arith) (omega arith),
)

narrow_down-within :
    (fuel : ℕ) (r : TreeLru) (start end : ℕ)
    → start < end
    → end - start ≤ fuel
    → (w : ℕ) × (narrow_down fuel r start end ≡ some w) × (start ≤ w) × (w < end)
unfolding narrow_down
narrow_down-within zero r start end h f = absurd (omega arith)
narrow_down-within (suc fuel) r start end h f =
    let pivot = start + (end - start) / 2 in
    let newer = ltb (newest r pivot (end - pivot)) (newest r start (pivot - start)) in
    elim (Bool-cases (ltb 1 (end - start))) [
      | inr one ↦ (start, rw (one) refl, omega arith, h)
      | inl many ↦
          let two : 1 < end - start = ground arith in
          elim (Bool-cases newer) [
            | inl e ↦
                let (w, q, l, u) =
                  narrow_down-within fuel r pivot end (omega arith) (omega arith) in
                (w, rw (many, e) q, omega arith, u)
            | inr e ↦
                let (w, q, l, u) =
                  narrow_down-within fuel r start pivot (omega arith) (omega arith) in
                (w, rw (many, e) q, l, omega arith)
          ]
    ]

module _ (fuel : ℕ) (r : TreeLru) (start end : ℕ) (many : ltb 1 (end - start) ≡ true) where
  abbrev pivot : ℕ
  pivot = start + (end - start) / 2

  abbrev newer : Bool
  newer = ltb (newest r pivot (end - pivot)) (newest r start (pivot - start))

  round_late : newer ≡ true → narrow_down (suc fuel) r start end ≡ narrow_down fuel r pivot end
  unfolding narrow_down
  round_late e = rw (many, e) refl

  round_early : newer ≡ false → narrow_down (suc fuel) r start end ≡ narrow_down fuel r start pivot
  unfolding narrow_down
  round_early e = rw (many, e) refl

-- One round leaves the newest candidate out.
narrow_down-spares :
    (fuel : ℕ) (r : TreeLru) (end m : ℕ)
    → 2 ≤ end
    → end ≤ fuel
    → m < end
    → ((j : ℕ) → j < end → j ≢ m → age r j < age r m)
    → (w : ℕ) × (narrow_down fuel r 0 end ≡ some w) × (w < end) × (w ≢ m)
narrow_down-spares zero r end m two f h n = absurd (omega arith)
narrow_down-spares (suc fuel) r end m two f h n =
    let pivot = 0 + (end - 0) / 2 in
    let t1 = newest r 0 (pivot - 0) in
    let t2 = newest r pivot (end - pivot) in
    let some_age : 0 < age r m = positive two in
    elim (dec_lt m pivot) [
      | yes below ↦
          let l1 = le-newest r 0 (pivot - 0) m (omega arith) (omega arith) in
          let l2 =
            newest-lt r pivot (end - pivot) (age r m) some_age
              (λ j l u. n j (omega arith) (λ e. omega arith)) in
          let e : ltb t2 t1 ≡ true = ground arith in
          let (w, q, l, u) = narrow_down-within fuel r pivot end (omega arith) (omega arith) in
          (w, round_late fuel r 0 end many e ∙ q, u, λ e. omega arith)
      | no above ↦
          let l1 = le-newest r pivot (end - pivot) m (omega arith) (omega arith) in
          let l2 =
            newest-lt r 0 (pivot - 0) (age r m) some_age
              (λ j l u. n j (omega arith) (λ e. omega arith)) in
          let e : ltb t2 t1 ≡ false = ground arith in
          let (w, q, l, u) = narrow_down-within fuel r 0 pivot (omega arith) (omega arith) in
          (w, round_early fuel r 0 end many e ∙ q, omega arith, λ e. omega arith)
    ]
  where
    many : ltb 1 (end - 0) ≡ true
    many = ground arith

    positive : 2 ≤ end → 0 < age r m
    positive t = elim (Bool-cases (m == 0)) [
      | inl e ↦ let q = n 1 (omega arith) (λ x. ground arith) in omega arith
      | inr e ↦ let q = n 0 (omega arith) (λ x. ground arith) in omega arith
    ]

-- With two candidates or more, all of them recorded, and one newer than all others,
-- `getBestCandidate` ends and returns another candidate.
pub get_best_candidate-spares :
    (r : TreeLru) (m : ℕ)
    → 2 ≤ r.num_cands
    → r.cand_idx ≡ r.num_cands
    → m < r.num_cands
    → ((j : ℕ) → j < r.num_cands → j ≢ m → age r j < age r m)
    → (w : ℕ) × (get_best_candidate r ≡ ok (some (r.cand_array w))) × (w < r.num_cands) × (w ≢ m)
unfolding get_best_candidate
get_best_candidate-spares r m two all h n =
    let (w, q, l, ne) =
      narrow_down-spares (suc r.num_cands) r r.num_cands m two (omega arith) h n in
    (w, rw (==-of-eq r.cand_idx r.num_cands all, q) refl, l, ne)
