-- ===== src/Base/Family.antt =====
-- A C++ vector or array as the family of its elements; the length is kept beside it. Counting and
-- summing over the first `n` of them.
use Prim.Native.Nat.{ℕ, zero, suc, ◌+◌, ◌≤◌, ◌<◌}
use mathlib.Core.Path.{◌≡◌, refl, sym, ap, ap₂, ◌∙◌, subst}
use mathlib.Core.Logic.{◌≢◌, inl, inr}
use mathlib.Core.Bool.{Bool, false}
use native.Mathlib.Omega.{arith}
use native.Mathlib.Decide.{dec_lt}
use bzsim.Base.Tests.{◌==◌, if◌then◌else◌, bit, ==-of-eq, eq_of_==, Bool-cases}

-- `f[i] = a`.
abbrev pub update {ℓ} : {A : Type ℓ} → (ℕ → A) → ℕ → A → ℕ → A
update f i a j = if i == j then a else f j

-- f(0) + … + f(n - 1).
unfoldable pub total : ℕ → (ℕ → ℕ) → ℕ
total zero f = 0
total (suc n) f = total n f + f n

pub total-ext : (n : ℕ) (f g : ℕ → ℕ) → ((i : ℕ) → i < n → f i ≡ g i) → total n f ≡ total n g
unfolding total
total-ext zero f g h = refl
total-ext (suc n) f g h = ap₂ ◌+◌ (total-ext n f g (λ i p. h i (omega arith))) (h n (omega arith))

-- One element changes: the total changes by as much.
pub total-change :
    (n : ℕ) (f g : ℕ → ℕ) (i : ℕ)
    → i < n
    → ((j : ℕ) → j ≢ i → g j ≡ f j)
    → total n g + f i ≡ total n f + g i
unfolding total
total-change zero f g i h e = absurd (omega arith)
total-change (suc n) f g i h e = elim (dec_lt i n) [
  | yes p ↦ omega (arith, total-change n f g i p e, e n (λ q. omega arith))
  | no p ↦ omega (arith, total-ext n g f (λ j q. e j (λ r. omega arith)), at_last (omega arith))
]
  where
    at_last : n ≡ i → f n + g i ≡ g n + f i
    at_last q = omega (arith, ap f q, ap g q)

pub le-total : (n : ℕ) (f : ℕ → ℕ) (i : ℕ) → i < n → f i ≤ total n f
unfolding total
le-total zero f i h = absurd (omega arith)
le-total (suc n) f i h = elim (dec_lt i n) [
  | yes p ↦ omega (arith, le-total n f i p)
  | no p ↦ let e : f i ≡ f n = ap f (omega arith) in omega arith
]

pub total-zero : (n : ℕ) (f : ℕ → ℕ) → ((i : ℕ) → i < n → f i ≡ 0) → total n f ≡ 0
unfolding total
total-zero zero f h = refl
total-zero (suc n) f h = omega (arith, total-zero n f (λ i p. h i (omega arith)), h n (omega arith))

-- How many of the first `n` pass the test.
abbrev pub count : ℕ → (ℕ → Bool) → ℕ
count n p = total n (λ i. bit (p i))

-- Where none is counted, none passes.
pub count-zero : (n : ℕ) (p : ℕ → Bool) → count n p ≡ 0 → (i : ℕ) → i < n → p i ≡ false
count-zero n p h i q = ground (arith, le-total n (λ j. bit (p j)) i q)

-- What holds below `n` and at `n` holds below `n + 1`.
pub below_suc {ℓ} :
    {P : ℕ → Type ℓ} (n : ℕ) → ((i : ℕ) → i < n → P i) → P n → (i : ℕ) → i < suc n → P i
below_suc {P = P} n h p i q = elim (dec_lt i n) [
  | yes r ↦ h i r
  | no r ↦ let e : n ≡ i = omega arith in subst P e p
]

-- What holds at one index and at all others holds at each.
pub split {ℓ} :
    {P : ℕ → Type ℓ} {n : ℕ} (c : ℕ) → ((i : ℕ) → i < n → i ≢ c → P i) → P c → (i : ℕ) → i < n → P i
split {P = P} c h p i q = elim (Bool-cases (c == i)) [
  | inl e ↦ subst P (eq_of_== c i e) p
  | inr e ↦ h i q (λ r. let f = ==-of-eq c i (sym r) in cc)
]

module _ {ℓ} {A : Type ℓ} (f : ℕ → A) (i : ℕ) (a : A) where
  pub update-same : update f i a i ≡ a
  update-same = rw (==-of-eq i i refl) refl

  pub update-other : (j : ℕ) → i ≢ j → update f i a j ≡ f j
  update-other j h = elim (Bool-cases (i == j)) [
    | inl e ↦ absurd (h (eq_of_== i j e))
    | inr e ↦ rw (e) refl
  ]

  pub update-id : f i ≡ a → (j : ℕ) → update f i a j ≡ f j
  update-id h j = elim (Bool-cases (i == j)) [
    | inl e ↦ rw (e) (sym h ∙ ap f (eq_of_== i j e))
    | inr e ↦ rw (e) refl
  ]
