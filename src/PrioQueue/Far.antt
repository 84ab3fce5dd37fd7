-- ===== src/PrioQueue/Far.antt =====
-- The map of far elements.
use mathlib.Core.List.{Perm}
use mathlib.Core.List.Perm
use bzsim.Base.{
  ℕ, suc, ◌<◌, ◌≤◌, ◌≡◌, refl, ap, subst, inl, inr, false, List, [], ◌∷◌, length, ltb, ◌==◌,
  if◌then◌else◌, Bool-cases, arith,
}
use bzsim.PrioQueue.{insert_far}
use bzsim.PrioQueue.Contents.{far, AllFrom, AllFrom-mono, IsOrdered}

pub far_none : {T : Type 0} (n c : ℕ) (fe : List (ℕ × T)) → AllFrom n fe → c < n → far fe c ≡ []
unfolding far
far_none n c [] a h = refl
far_none n c ((k, x) ∷ fe) (l, a) h =
    let e : (k == c) ≡ false = ground arith in rw (e) (far_none n c fe a h)

pub far-insert_far :
    {T : Type 0} (k : ℕ) (x : T) (fe : List (ℕ × T)) (c : ℕ)
    → Perm (far (insert_far k x fe) c) (if k == c then x ∷ far fe c else far fe c)
unfolding far insert_far
far-insert_far k x [] c = Perm.refl _
far-insert_far k x ((j, y) ∷ fe) c = elim (Bool-cases (ltb k j)) [
  | inl e ↦ rw (e) (Perm.refl _)
  | inr e ↦ rw (e) (elim (Bool-cases (j == c)) [
    | inr f ↦ rw (f) (far-insert_far k x fe c)
    | inl f ↦ elim (Bool-cases (k == c)) [
      | inl g ↦
          rw (f, g)
            (Perm.trans
              (Perm.cons y (
                subst (λ b. Perm (far (insert_far k x fe) c) (if b then x ∷ far fe c else far fe c))
                  g (far-insert_far k x fe c)))
              (Perm.swap x y (far fe c)))
      | inr g ↦
          rw (f, g)
            (Perm.cons y (
              subst (λ b. Perm (far (insert_far k x fe) c) (if b then x ∷ far fe c else far fe c)) g
                (far-insert_far k x fe c)))
    ]
  ])
]

pub AllFrom-insert_far :
    {T : Type 0} (n k : ℕ) (x : T) (fe : List (ℕ × T))
    → n ≤ k
    → AllFrom n fe
    → AllFrom n (insert_far k x fe)
unfolding insert_far
AllFrom-insert_far n k x [] h a = (h, tt)
AllFrom-insert_far n k x ((j, y) ∷ fe) h (l, a) = elim (Bool-cases (ltb k j)) [
  | inl e ↦ rw (e) (h, (l, a))
  | inr e ↦ rw (e) (l, AllFrom-insert_far n k x fe h a)
]

pub IsOrdered-insert_far :
    {T : Type 0} (k : ℕ) (x : T) (fe : List (ℕ × T)) → IsOrdered fe → IsOrdered (insert_far k x fe)
unfolding insert_far
IsOrdered-insert_far k x [] o = (tt, tt)
IsOrdered-insert_far k x ((j, y) ∷ fe) (a, o) = elim (Bool-cases (ltb k j)) [
  | inl e ↦ rw (e) ((ground arith, AllFrom-mono k j fe (ground arith) a), (a, o))
  | inr e ↦ rw (e) (AllFrom-insert_far j k x fe (ground arith) a, IsOrdered-insert_far k x fe o)
]

pub length-insert_far :
    {T : Type 0} (k : ℕ) (x : T) (fe : List (ℕ × T)) → length (insert_far k x fe) ≡ suc (length fe)
unfolding insert_far
length-insert_far k x [] = refl
length-insert_far k x ((j, y) ∷ fe) = elim (Bool-cases (ltb k j)) [
  | inl e ↦ rw (e) refl
  | inr e ↦ rw (e) (ap suc (length-insert_far k x fe))
]
