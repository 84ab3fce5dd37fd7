-- ===== src/Base/Sums.antt =====
-- Sums over a family: term by term, and in two directions.
use Prim.Native.Nat.{ℕ, zero, suc, ◌+◌, ◌*◌, ◌≤◌, ◌<◌}
use mathlib.Core.Path.{◌≡◌, refl, ap}
use mathlib.Core.Logic.{◌≢◌}
use native.Mathlib.Omega.{arith}
use native.Mathlib.Decide.{dec_lt}
use bzsim.Base.Family.{total, total-zero, total-change}

pub total-add : (n : ℕ) (f g : ℕ → ℕ) → total n (λ i. f i + g i) ≡ total n f + total n g
unfolding total
total-add zero f g = refl
total-add (suc n) f g = omega (arith, total-add n f g)

pub total-swap :
    (n m : ℕ) (f : ℕ → ℕ → ℕ) → total n (λ i. total m (f i)) ≡ total m (λ j. total n (λ i. f i j))
unfolding total
total-swap zero m f = omega (arith, total-zero m (λ j. 0) (λ j h. refl))
total-swap (suc n) m f =
    omega (arith, total-swap n m f, total-add m (λ j. total n (λ i. f i j)) (f n))

pub total_mono : (n : ℕ) (f g : ℕ → ℕ) → ((i : ℕ) → i < n → f i ≤ g i) → total n f ≤ total n g
unfolding total
total_mono zero f g h = omega arith
total_mono (suc n) f g h =
    omega (arith, total_mono n f g (λ i p. h i (omega arith)), h n (omega arith))

-- One strict term makes the sum strict.
pub total-lt :
    (n : ℕ) (f g : ℕ → ℕ) (k : ℕ)
    → ((i : ℕ) → i < n → f i ≤ g i)
    → k < n
    → f k < g k
    → total n f < total n g
unfolding total
total-lt zero f g k h p q = absurd (omega arith)
total-lt (suc n) f g k h p q = elim (dec_lt k n) [
  | yes below ↦
      omega (arith, total-lt n f g k (λ i r. h i (omega arith)) below q, h n (omega arith))
  | no last ↦
      let e : k ≡ n = omega arith in
      omega (arith, total_mono n f g (λ i r. h i (omega arith)), ap f e, ap g e)
]

pub total-single :
    (n : ℕ) (f : ℕ → ℕ) (k : ℕ) → k < n → ((i : ℕ) → i ≢ k → f i ≡ 0) → total n f ≡ f k
total-single n f k h z =
    omega
      (arith, total-change n (λ i. 0) f k h (λ i ne. z i ne), total-zero n (λ i. 0) (λ i p. refl))

pub total-const : (n c : ℕ) → total n (λ i. c) ≡ n * c
unfolding total
total-const zero c = omega arith
total-const (suc n) c = omega (arith, total-const n c)
