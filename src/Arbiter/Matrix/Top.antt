-- ===== src/Arbiter/Matrix/Top.antt =====
-- Of the requests of a matrix arbiter, one is kept back by no other.
use bzsim.Base.{
  ℕ, zero, suc, ◌<◌, ◌≤◌, ◌≡◌, ◌⊎◌, subst, inl, inr, true, false, ◌==◌, Bool-cases, arith,
}
use bzsim.Arbiter.Matrix.{Matrix, blocks}
use bzsim.Arbiter.Matrix.Order.{IsOrder}

-- Input `w` holds a request, and none of the first `n` inputs keeps it from being granted.
pub record IsTop (r : Matrix) (n w : ℕ) : Type 0 where
  pub within : w < r.size
  pub requested : (r.request w).valid ≡ true
  pub free : (j : ℕ) → j < n → blocks r w j ≡ false

module _ (r : Matrix) (o : IsOrder r.size r.matrix) where
  blocks_self : (i : ℕ) → i < r.size → blocks r i i ≡ false
  unfolding blocks
  blocks_self i h = ground (arith, o.irreflexive i h)

  blocks_trans :
      (a b c : ℕ)
      → a < r.size
      → b < r.size
      → c < r.size
      → blocks r a b ≡ true
      → blocks r b c ≡ true
      → blocks r a c ≡ true
  unfolding blocks
  blocks_trans a b c ha hb hc e f = ground (arith, o.transitive c b a hc hb ha)

  blocks-valid : (a b : ℕ) → (r.request b).valid ≡ false → blocks r a b ≡ false
  unfolding blocks
  blocks-valid a b v = ground arith

  blocks-requested : (a b : ℕ) → blocks r a b ≡ true → (r.request b).valid ≡ true
  unfolding blocks
  blocks-requested a b e = ground arith

  -- One input more: it comes before the first so far, or not.
  climb :
      (n w : ℕ)
      → n < r.size
      → w < n
      → IsTop r n w
      → (blocks r w n ≡ true) ⊎ (blocks r w n ≡ false)
      → (v : ℕ) × (v < suc n) × IsTop r (suc n) v
  climb n w h lt t (inl beaten) = (
    n,
    omega arith,
    record {
      within = h;
      requested = blocks-requested w n beaten;
      free = λ j k. elim (Bool-cases (blocks r n j)) [
        | inl e ↦ absurd (beats_both j k e)
        | inr free ↦ free
      ];
    },
  )
    where
      beats_both : (j : ℕ) → j < suc n → blocks r n j ≡ true → ⊥
      beats_both j k e = elim (Bool-cases (j == n)) [
        | inl same ↦
            let q : j ≡ n = ground arith in
            let e' : blocks r n n ≡ true = subst (λ x. blocks r n x ≡ true) q e in
            cc (blocks_self n h)
        | inr other ↦
            let e' : blocks r w j ≡ true =
              blocks_trans w n j t.within h (omega (arith, k, h)) beaten e in
            cc (t.free j (ground arith))
      ]
  climb n w h lt t (inr safe) = (
    w,
    omega arith,
    record {
      within = t.within;
      requested = t.requested;
      free = λ j k. elim (Bool-cases (j == n)) [
        | inl same ↦ let q : n ≡ j = ground arith in subst (λ x. blocks r w x ≡ false) q safe
        | inr other ↦ t.free j (ground arith)
      ];
    },
  )

  -- Of the first `n` inputs, none asks or one is before all others.
  pub IsTop-exists :
      (n : ℕ)
      → n ≤ r.size
      → ((j : ℕ) → j < n → (r.request j).valid ≡ false) ⊎ ((w : ℕ) × (w < n) × IsTop r n w)
  IsTop-exists zero h = inl (λ j k. absurd (omega arith))
  IsTop-exists (suc n) h = elim (IsTop-exists n (omega arith)) [
    | inl nobody ↦ elim (Bool-cases (r.request n).valid) [
      | inl asks ↦ inr (
        n,
        omega arith,
        record {
          within = omega arith;
          requested = asks;
          free = λ j k. elim (Bool-cases (j == n)) [
            | inl same ↦
                let q : n ≡ j = ground arith in
                subst (λ x. blocks r n x ≡ false) q (blocks_self n (omega arith))
            | inr other ↦ blocks-valid n j (nobody j (ground arith))
          ];
        },
      )
      | inr silent ↦ inl (λ j k. elim (Bool-cases (j == n)) [
        | inl same ↦
            let q : n ≡ j = ground arith in subst (λ x. (r.request x).valid ≡ false) q silent
        | inr other ↦ nobody j (ground arith)
      ])
    ]
    | inr (w, lt, t) ↦ inr (climb n w (omega arith) lt t (Bool-cases (blocks r w n)))
  ]
