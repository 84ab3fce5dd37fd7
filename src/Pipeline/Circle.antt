-- ===== src/Pipeline/Circle.antt =====
-- Items in a circle of places.
use bzsim.Base.{
  ℕ, zero, suc, ◌+◌, ◌-◌, ◌%◌, ◌≤◌, ◌<◌, ◌≡◌, ◌≢◌, refl, sym, ap, ◌∙◌, Option, none, List, [], ◌∷◌,
  ◌++◌, length, replicate, ◌==◌, update, update-other, arith, Bool-cases, inl, inr, ◌⊎◌, subst,
}
use native.Mathlib.Nat.{mod-eq_of_lt, add-mod_right, mod-eq-sub-mod}
use native.Mathlib.Decide.{dec_lt}

-- The items of `q` stand in a circle of `len` places, from `p` on.
abbrev pub Holds : {T : Type 0} → ℕ → (ℕ → Option T) → ℕ → List (Option T) → Type 0
Holds len slot p [] = Unit
Holds len slot p (x ∷ q) = (slot (p % len) ≡ x) × Holds len slot (suc p) q

pub Holds-append :
    {T : Type 0} (len : ℕ) (slot : ℕ → Option T) (p : ℕ) (q : List (Option T)) (x : Option T)
    → Holds len slot p q
    → slot ((p + length q) % len) ≡ x
    → Holds len slot p (q ++ (x ∷ []))
Holds-append len slot p [] x h e = (ap (λ (k : ℕ). slot (k % len)) (omega arith) ∙ e, tt)
Holds-append len slot p (y ∷ q) x (a, h) e =
    (a, Holds-append len slot (suc p) q x h (ap (λ (k : ℕ). slot (k % len)) (omega arith) ∙ e))

-- Once round the circle is the same place.
Holds-round :
    {T : Type 0} (len : ℕ) (slot : ℕ → Option T) (p : ℕ) (q : List (Option T))
    → Holds len slot (p + len) q
    → Holds len slot p q
Holds-round len slot p [] h = tt
Holds-round len slot p (x ∷ q) (a, h) = (
  ap slot (sym (add-mod_right p len)) ∙ a,
  Holds-round len slot (suc p) q (subst (λ k. Holds len slot k q) (omega arith) h),
)

not_at : (len ptr p : ℕ) → ptr < len → ptr < p → p < ptr + len → ptr ≢ p % len
not_at len ptr p h l u e = elim (dec_lt p len) [
  | yes q ↦ omega (arith, mod-eq_of_lt q)
  | no q ↦
      let m : p % len ≡ (p - len) % len = mod-eq-sub-mod (omega arith) in
      let k : p - len < len = omega arith in omega (arith, m, mod-eq_of_lt k)
]

-- What is written behind the items leaves them.
pub Holds-update :
    {T : Type 0} (len : ℕ) (slot : ℕ → Option T) (ptr p : ℕ) (q : List (Option T)) (x : Option T)
    → ptr < len
    → ptr < p
    → p + length q ≤ ptr + len
    → Holds len slot p q
    → Holds len (update slot ptr x) p q
Holds-update len slot ptr p [] x h l u g = tt
Holds-update len slot ptr p (y ∷ q) x h l u (a, g) = (
  update-other slot ptr x (p % len) (not_at len ptr p h l (omega arith)) ∙ a,
  Holds-update len slot ptr (suc p) q x h (omega arith) (omega arith) g,
)

pub update_twice :
    {T : Type 0} (f : ℕ → T) (i : ℕ) (a b : T) (j : ℕ)
    → update (update f i a) i b j ≡ update f i b j
update_twice f i a b j = elim (Bool-cases (i == j)) [ inl e ↦ rw (e) refl | inr e ↦ rw (e) refl ]

pub Holds-ext :
    {T : Type 0} (len : ℕ) (f g : ℕ → Option T) (p : ℕ) (q : List (Option T))
    → ((j : ℕ) → g j ≡ f j)
    → Holds len f p q
    → Holds len g p q
Holds-ext len f g p [] e h = tt
Holds-ext len f g p (x ∷ q) e (a, h) = (e (p % len) ∙ a, Holds-ext len f g (suc p) q e h)

next_place :
    (len ptr : ℕ) → ptr < len → (suc ptr ≡ (ptr + 1) % len) ⊎ (suc ptr ≡ (ptr + 1) % len + len)
next_place len ptr h = elim (dec_lt (ptr + 1) len) [
  | yes l ↦ inl (omega (arith, mod-eq_of_lt l))
  | no l ↦
      let m : (ptr + 1) % len ≡ (ptr + 1 - len) % len = mod-eq-sub-mod (omega arith) in
      let k : ptr + 1 - len < len = omega arith in inr (omega (arith, m, mod-eq_of_lt k))
]

pub last_place : (len ptr n : ℕ) → ptr < len → suc n ≡ len → (suc ptr + n) % len ≡ ptr
last_place len ptr n h e =
    let m : (suc ptr + n) % len ≡ (ptr + len) % len = ap (λ (k : ℕ). k % len) (omega arith) in
    m ∙ add-mod_right ptr len ∙ mod-eq_of_lt h

-- The places behind the pointer, once it has moved.
pub Holds-next :
    {T : Type 0} (len : ℕ) (f : ℕ → Option T) (ptr : ℕ) (q : List (Option T))
    → ptr < len
    → Holds len f (suc (suc ptr)) q
    → Holds len f (suc ((ptr + 1) % len)) q
Holds-next len f ptr q h g = elim (next_place len ptr h) [
  | inl e ↦ subst (λ k. Holds len f k q) (ap suc e) g
  | inr e ↦
      Holds-round len f (suc ((ptr + 1) % len)) q
        (subst (λ k. Holds len f k q) (omega (arith, e)) g)
]

pub Holds-replicate :
    (T : Type 0) (len p n : ℕ) → Holds {T = T} len (λ j. none) p (replicate n none)
Holds-replicate T len p zero = tt
Holds-replicate T len p (suc n) = (refl, Holds-replicate T len (suc p) n)
