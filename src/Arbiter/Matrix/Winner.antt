-- ===== src/Arbiter/Matrix/Winner.antt =====
-- The matrix arbiter grants one request that no other request comes before.
use bzsim.Base.{
  ◌≢◌, eqb_ℤ, ◌<ℤ◌, ℕ, zero, suc, ◌<◌, ◌≤◌, ◌≡◌, ◌⊎◌, refl, subst, inl, inr, ℤ, pos, negsuc, true,
  false, not, ◌&&◌, ltb, ◌==◌, if◌then◌else◌, Bool-cases, arith, some, ok,
}
use bzsim.Arbiter
use bzsim.Arbiter.Matrix.{Matrix, blocks, blocked, first_granted, arbitrate}
use bzsim.Arbiter.Matrix.Order.{IsOrder}
use bzsim.Arbiter.Matrix.Top.{IsTop, IsTop-exists}

blocked-free :
    (r : Matrix) (n w : ℕ) → blocked n r w ≡ false → (j : ℕ) → j < n → blocks r w j ≡ false
unfolding blocked
blocked-free r zero w e j h = absurd (omega arith)
blocked-free r (suc n) w e j h = elim (Bool-cases (j == n)) [
  | inl same ↦
      let q : n ≡ j = ground arith in
      let last : blocks r w n ≡ false = ground arith in subst (λ x. blocks r w x ≡ false) q last
  | inr other ↦ blocked-free r n w (ground arith) j (ground arith)
]

free-blocked :
    (r : Matrix) (n w : ℕ) → ((j : ℕ) → j < n → blocks r w j ≡ false) → blocked n r w ≡ false
unfolding blocked
free-blocked r zero w f = refl
free-blocked r (suc n) w f =
    ground (arith, free-blocked r n w (λ j h. f j (omega arith)), f n (omega arith))

-- What the outer loop has found below `n`.
abbrev Found : Matrix → ℕ → ℤ → Type 0
Found r n (pos w) = (w < n) × ((r.request w).valid ≡ true) × (blocked r.size r w ≡ false)
Found r n (negsuc k) =
    (k ≡ 0) × ((j : ℕ) → j < n → ((r.request j).valid && not (blocked r.size r j)) ≡ false)

first_granted-Found : (r : Matrix) (n : ℕ) → Found r n (first_granted n r)
unfolding first_granted
first_granted-Found r zero = (refl, λ j h. absurd (omega arith))
first_granted-Found r (suc n) = step (first_granted n r) (first_granted-Found r n)
  where
    next : ℤ → ℤ
    next z = elim z [
      | pos w ↦ pos w
      | negsuc k ↦ if (r.request n).valid && not (blocked r.size r n) then pos n else negsuc 0
    ]

    step : (z : ℤ) → Found r n z → Found r (suc n) (next z)
    step (pos w) (h, v, b) = (omega arith, v, b)
    step (negsuc k) (z, f) = elim (Bool-cases ((r.request n).valid && not (blocked r.size r n))) [
      | inl granted ↦ rw granted (omega arith, ground arith, ground arith)
      | inr denied ↦ rw denied (
        refl,
        λ j h. elim (Bool-cases (j == n)) [
          | inl same ↦
              let q : n ≡ j = ground arith in
              subst (λ x. ((r.request x).valid && not (blocked r.size r x)) ≡ false) q denied
          | inr other ↦ f j (ground arith)
        ],
      )
    ]

first_granted-IsTop :
    (r : Matrix) (j : ℕ)
    → IsOrder r.size r.matrix
    → j < r.size
    → (r.request j).valid ≡ true
    → (w : ℕ) × (first_granted r.size r ≡ pos w) × IsTop r r.size w
first_granted-IsTop r j o h v = go (first_granted r.size r) refl (first_granted-Found r r.size)
  where
    go :
        (z : ℤ)
        → first_granted r.size r ≡ z
        → Found r r.size z
        → (w : ℕ) × (first_granted r.size r ≡ pos w) × IsTop r r.size w
    go (pos w) e (lt, asks, b) =
        (w, e, record { within = lt; requested = asks; free = blocked-free r r.size w b })
    go (negsuc k) e (_, f) = elim (IsTop-exists r o r.size (omega arith)) [
      | inl nobody ↦ absurd (cc (nobody j h))
      | inr (w, lt, t) ↦
          let b : blocked r.size r w ≡ false = free-blocked r r.size w t.free in
          absurd (ground (arith, f w lt, t.requested))
    ]

chosen_input :
    (r : Matrix) (w : ℕ)
    → w < r.size
    → 2 ≤ r.num_reqs
    → first_granted r.size r ≡ pos w
    → arbitrate r
      ≡ ok (
        record r { base = record r.base { selected = pos w } },
        pos w,
        some ((r.request w).id, (r.request w).pri),
      )
unfolding arbitrate Arbiter.arbitrate
chosen_input r w h two e =
    let pick : (if ltb r.num_reqs 2 then r.last_req else first_granted r.size r) ≡ pos w =
      ground (arith, e) in
    rw pick (ground arith)

-- Input `w` holds a request, and every other request has a lower priority, or the same and comes
-- later in the matrix.
pub record IsPreferred (r : Matrix) (w : ℕ) : Type 0 where
  pub within : w < r.size
  pub requested : (r.request w).valid ≡ true
  pub others :
      (j : ℕ)
      → j < r.size
      → (r.request j).valid ≡ true
      → j ≢ w
      → ((r.request j).pri <ℤ (r.request w).pri)
        ⊎ ((eqb_ℤ (r.request j).pri (r.request w).pri ≡ true) × (r.matrix w j ≡ true))

unblocked-cases :
    (r : Matrix) (w j : ℕ)
    → (r.request j).valid ≡ true
    → blocks r w j ≡ false
    → ((r.request j).pri <ℤ (r.request w).pri)
      ⊎ ((eqb_ℤ (r.request j).pri (r.request w).pri ≡ true) × (r.matrix j w ≡ false))
unfolding blocks
unblocked-cases r w j v b = ground arith

IsTop-IsPreferred :
    (r : Matrix) (w : ℕ) → IsOrder r.size r.matrix → IsTop r r.size w → IsPreferred r w
IsTop-IsPreferred r w o t = record {
  within = t.within;
  requested = t.requested;
  others = λ j h v ne. elim (unblocked-cases r w j v (t.free j h)) [
    | inl lower ↦ inl lower
    | inr (same, m) ↦ inr (same, o.total j w h t.within ne m)
  ];
}

-- With two requests or more, and a matrix that is an order, `Arbitrate` succeeds and returns an
-- input that asks, with the request's id and priority, and that is preferred to all other requests:
-- each has a lower priority, or the same and comes later in the matrix.
pub arbitrate-IsPreferred :
    (r : Matrix) (j : ℕ)
    → IsOrder r.size r.matrix
    → 2 ≤ r.num_reqs
    → j < r.size
    → (r.request j).valid ≡ true
    → (w : ℕ) × (arbitrate r
        ≡ ok (
          record r { base = record r.base { selected = pos w } },
          pos w,
          some ((r.request w).id, (r.request w).pri),
        ))
      × IsPreferred r w
arbitrate-IsPreferred r j o two h v =
    let (w, e, t) = first_granted-IsTop r j o h v in
    (w, chosen_input r w t.within two e, IsTop-IsPreferred r w o t)
