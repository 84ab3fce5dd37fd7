-- ===== src/Replacement/Nru/Young.antt =====
-- After each use, fewer than half of the lines are young.
use Prim.Native.Nat.{bit_or}
use bzsim.Base.{
  ℕ, zero, suc, ◌+◌, ◌/◌, ◌%◌, ◌^◌, ◌≤◌, ◌<◌, ◌≡◌, inl, inr, refl, sym, Bool, true, false, ltb, leb,
  if◌then◌else◌, update, update-same, update-other, arith, Bool-cases, subst, ap, total, count, bit,
  total-change, total-zero, total_mono,
}
use bzsim.Replacement.Nru.{Nru, init, touch, age_lines, use_line, replaced}

abbrev young : Nru → ℕ → Bool
young r i = leb 2 (r.array i)

-- The bits are two, and the young lines are counted, some of them more than once.
pub record IsNru (r : Nru) : Type 0 where
  pub two_bits : (i : ℕ) → r.array i < 4
  pub counted : count r.num_lines (young r) ≤ r.young_lines
  pub below : r.young_lines < r.num_lines / 2
  pub narrow : r.num_lines < 2 ^ 32

pub or_two : (a : ℕ) → a < 4 → bit_or a 2 ≡ 2 + a % 2
or_two zero h = refl
or_two (suc zero) h = refl
or_two (suc (suc zero)) h = refl
or_two (suc (suc (suc zero))) h = refl
or_two (suc (suc (suc (suc a)))) h = absurd (omega arith)

pub two_bits-use_line :
    (r : Nru) (id : ℕ) → ((i : ℕ) → r.array i < 4) → (j : ℕ) → (use_line r id).array j < 4
unfolding use_line touch age_lines
two_bits-use_line r id b j = ground (arith, b j, b id, or_two (r.array id) (b id))

abbrev older : Nru → Nru
older r = record r {
  array = λ i. if ltb i r.num_lines then r.array i / 2 else r.array i;
  young_lines = 0;
}

age_lines_full : (s : Nru) → leb (s.num_lines / 2) s.young_lines ≡ true → age_lines s ≡ older s
unfolding age_lines
age_lines_full s e = rw (e) refl

age_lines_part : (s : Nru) → leb (s.num_lines / 2) s.young_lines ≡ false → age_lines s ≡ s
unfolding age_lines
age_lines_part s e = rw (e) refl

-- Where half of the lines are young, all of them age and none is young; else nothing changes.
age_lines-IsNru :
    (s : Nru)
    → ((j : ℕ) → s.array j < 4)
    → count s.num_lines (young s) ≤ s.young_lines
    → 0 < s.num_lines / 2
    → s.num_lines < 2 ^ 32
    → IsNru (age_lines s)
age_lines-IsNru s b c l n = elim (Bool-cases (leb (s.num_lines / 2) s.young_lines)) [
  | inl full ↦ subst IsNru (sym (age_lines_full s full)) (record {
    two_bits = λ j. ground (arith, b j);
    counted =
        omega (
          arith,
          total-zero s.num_lines (λ j. bit (young (older s) j)) (λ j q. ground (arith, b j)),
        );
    below = l;
    narrow = n;
  })
  | inr part ↦
      subst IsNru (sym (age_lines_part s part))
        (record { two_bits = b; counted = c; below = ground arith; narrow = n })
]

module _ (r : Nru) (id : ℕ) (i : IsNru r) (h : id < r.num_lines) where
  touch-two_bits : (j : ℕ) → (touch r id).array j < 4
  unfolding touch
  touch-two_bits j =
      ground (arith, i.two_bits j, i.two_bits id, or_two (r.array id) (i.two_bits id))

  touch-young_lines : (touch r id).young_lines + r.array id / 2 ≡ r.young_lines + 1
  unfolding touch
  touch-young_lines = omega (arith, i.two_bits id, i.below, i.narrow)

  touch-count :
      count r.num_lines (young (touch r id)) + r.array id / 2 ≡ count r.num_lines (young r) + 1
  unfolding touch
  touch-count =
      let f = λ (j : ℕ). bit (young r j) in
      let g = λ (j : ℕ). bit (young (touch r id) j) in
      let change = total-change r.num_lines f g id h (λ j ne.
        ap (λ (x : ℕ). bit (leb 2 x))
          (update-other r.array id (bit_or (r.array id) 2) j (λ q. ne (sym q)))) in
      let new : g id ≡ 1 = ground (
        arith,
        update-same r.array id (bit_or (r.array id) 2),
        or_two (r.array id) (i.two_bits id),
      ) in
      let old : f id ≡ r.array id / 2 = ground (arith, i.two_bits id) in
      omega (arith, change, new, old)

  touch-num_lines : (touch r id).num_lines ≡ r.num_lines
  unfolding touch
  touch-num_lines = refl

  -- `update` keeps two bits for each line and fewer than half of the lines young.
  pub use_line-IsNru : IsNru (use_line r id)
  unfolding use_line total touch
  use_line-IsNru =
      age_lines-IsNru (touch r id) touch-two_bits
        (omega (arith, i.counted, touch-young_lines, touch-count, touch-num_lines))
        (omega (arith, i.below, touch-num_lines)) (omega (arith, i.narrow, touch-num_lines))

-- `replaced` keeps them too: an evicted line is no longer young, but stays counted.
pub replaced-IsNru : (r : Nru) (id : ℕ) → IsNru r → IsNru (replaced r id)
unfolding replaced
replaced-IsNru r id i = record {
  two_bits = λ j. ground (arith, i.two_bits j);
  counted = omega (
    arith,
    i.counted,
    total_mono r.num_lines (λ j. bit (leb 2 (update r.array id 0 j))) (λ j. bit (young r j))
        (λ j h. ground arith),
  );
  below = i.below;
  narrow = i.narrow;
}

pub init-IsNru : (n k : ℕ) → 2 ≤ n → n < 2 ^ 32 → IsNru (init n k)
unfolding init
init-IsNru n k h l = record {
  two_bits = λ j. omega arith;
  counted = omega (arith, total-zero n (λ j. 0) (λ j p. refl));
  below = omega arith;
  narrow = l;
}
