-- ===== src/CacheArray/Lookup.antt =====
-- Where each address is found: a line's address is at most once in the array, in its own set.
use bzsim.Base.{
  ℕ, zero, suc, ◌+◌, ◌*◌, ◌/◌, ◌^◌, ◌≤◌, ◌<◌, ◌≡◌, ◌≢◌, inl, inr, refl, sym, Option, none, some,
  false, ◌==◌, arith, Bool-cases, eq_of_==, subst, ap, bit_and-le, ok, check-ok, ok_inj,
}
use Prim.Native.Nat.{bit_and}
use native.Mathlib.Nat.{mul-le-mul_right, div-mul-le_self}
use native.Mathlib.Decide.{dec_lt}
use bzsim.Replacement.{ReplPolicy}
use bzsim.CacheArray.{SetAssoc, scan, first, line_id, init, is_pow2}

-- The scan has found the first line with the address, or there is none.
abbrev pub Scanned : (ℕ → ℕ) → ℕ → ℕ → ℕ → Option ℕ → Type 0
Scanned array id n a none = (j : ℕ) → id ≤ j → j < id + n → array j ≢ a
Scanned array id n a (some k) = (id ≤ k) × (k < id + n) × (array k ≡ a)

pub scan-Scanned : (n : ℕ) (array : ℕ → ℕ) (id a : ℕ) → Scanned array id n a (scan n array id a)
unfolding scan
scan-Scanned zero array id a = λ j h k. absurd (omega arith)
scan-Scanned (suc n) array id a = elim (Bool-cases (array id == a)) [
  | inl e ↦ rw e (omega arith, omega arith, eq_of_== _ _ e)
  | inr e ↦ rw e (later (scan n array (suc id) a) (scan-Scanned n array (suc id) a) (ground arith))
]
  where
    later :
        (o : Option ℕ) → Scanned array (suc id) n a o → array id ≢ a → Scanned array id (suc n) a o
    later (some k) (h, q, e) ne = (omega arith, omega arith, e)
    later none f ne = λ j h k. elim (dec_lt id j) [
      | yes l ↦ f j l (omega arith)
      | no l ↦ let e : id ≡ j = omega arith in subst (λ x. array x ≢ a) e ne
    ]

module _ {S : Type 0} (hash : ℕ → ℕ → ℕ) (p : ReplPolicy S) where
  -- The array's shape, and where addresses stand.
  pub record IsPlaced (s : SetAssoc S) : Type 0 where
    pub sized : s.num_sets * s.assoc ≤ s.num_lines
    pub masked : suc s.set_mask ≡ s.num_sets
    pub some_way : 0 < s.assoc
    pub narrow : s.num_lines ≤ 2 ^ 31
    pub home :
        (id : ℕ)
        → id < s.num_lines
        → s.array id ≢ 0
        → (first hash p s (s.array id) ≤ id) × (id < first hash p s (s.array id) + s.assoc)
    pub once :
        (i j : ℕ)
        → i < s.num_lines
        → j < s.num_lines
        → s.array i ≢ 0
        → s.array i ≡ s.array j
        → i ≡ j

  -- A set lies within the lines.
  pub first-lt : (s : SetAssoc S) (a : ℕ) → IsPlaced s → first hash p s a + s.assoc ≤ s.num_lines
  unfolding first
  first-lt s a i =
      let b = bit_and-le (hash 0 a) s.set_mask in
      let set = bit_and (hash 0 a) s.set_mask in
      let m : set * s.assoc + s.assoc ≤ s.num_sets * s.assoc =
        omega (arith, mul-le-mul_right s.assoc b, ap (λ (k : ℕ). k * s.assoc) i.masked) in
      omega (arith, i.sized, i.narrow, i.some_way)

  pub line_id-Scanned :
      (s : SetAssoc S) (a : ℕ) → Scanned s.array (first hash p s a) s.assoc a (line_id hash p s a)
  unfolding line_id
  line_id-Scanned s a = scan-Scanned s.assoc s.array (first hash p s a) a

  -- An address that a line holds is found at this line.
  pub line_id-found :
      (s : SetAssoc S) (a id : ℕ)
      → IsPlaced s
      → a ≢ 0
      → id < s.num_lines
      → s.array id ≡ a
      → line_id hash p s a ≡ some id
  line_id-found s a id i nz h e = go (line_id hash p s a) (line_id-Scanned s a)
    where
      own : (first hash p s a ≤ id) × (id < first hash p s a + s.assoc)
      own =
          subst (λ x. (first hash p s x ≤ id) × (id < first hash p s x + s.assoc)) e
            (i.home id h (subst (λ x. x ≢ 0) (sym e) nz))

      go : (o : Option ℕ) → Scanned s.array (first hash p s a) s.assoc a o → o ≡ some id
      go none f = absurd (f id own.0 own.1 e)
      go (some k) (l, u, f) = ap some (
          i.once k id (omega (arith, first-lt s a i)) h (subst (λ x. x ≢ 0) (sym f) nz) (cc (e, f)))

  -- An address that no line holds is not found.
  pub line_id-missing :
      (s : SetAssoc S) (a : ℕ)
      → IsPlaced s
      → ((id : ℕ) → id < s.num_lines → s.array id ≢ a)
      → line_id hash p s a ≡ none
  line_id-missing s a i f = go (line_id hash p s a) (line_id-Scanned s a)
    where
      go : (o : Option ℕ) → Scanned s.array (first hash p s a) s.assoc a o → o ≡ none
      go none g = refl
      go (some k) (l, u, e) = absurd (f k (omega (arith, first-lt s a i)) e)

  -- And where none is found, no line holds it.
  pub missing_everywhere :
      (s : SetAssoc S) (a : ℕ)
      → IsPlaced s
      → a ≢ 0
      → line_id hash p s a ≡ none
      → (id : ℕ) → id < s.num_lines
      → s.array id ≢ a
  missing_everywhere s a i nz e id h q = let f = line_id-found s a id i nz h q in absurd (cc (e, f))

-- The constructor's array is well-formed.
pub init-IsPlaced :
    {S : Type 0} (hash : ℕ → ℕ → ℕ) (p : ReplPolicy S) (n w : ℕ) (rp : S) (s : SetAssoc S)
    → n ≤ 2 ^ 31
    → init n w rp ≡ ok s
    → IsPlaced hash p s
unfolding init is_pow2
init-IsPlaced hash p n zero rp s h e = cc
init-IsPlaced hash p n (suc w) rp s h e =
    let (c, q) = check-ok (is_pow2 (n / suc w)) _ e in
    let nz : (n / suc w == 0) ≡ false = ground arith in
    subst (IsPlaced hash p) (ok_inj q) (record {
      sized = div-mul-le_self n (suc w);
      masked = ground arith;
      some_way = omega arith;
      narrow = h;
      home = λ id l ne. absurd (ne refl);
      once = λ i j l m ne x. absurd (ne refl);
    })
