-- ===== src/Arbiter/Matrix/Order.antt =====
-- The matrix is always a strict total order of the inputs, with the last winner at its end.
use bzsim.Base.{
  ℕ, zero, suc, ◌<◌, ◌≡◌, ◌≢◌, refl, subst, sym, fun_ext, inl, inr, pos, Bool, true, false, not,
  ◌&&◌, ltb, ◌==◌, if◌then◌else◌, arith, Bool-cases,
}
use bzsim.Arbiter.Matrix.{Matrix, init, demote, update_state}

-- Of two inputs below `n`, one and only one has priority, and priority passes on.
pub record IsOrder (n : ℕ) (m : ℕ → ℕ → Bool) : Type 0 where
  pub irreflexive : (i : ℕ) → i < n → m i i ≡ false
  pub asymmetric : (i j : ℕ) → i < n → j < n → m i j ≡ true → m j i ≡ false
  pub total : (i j : ℕ) → i < n → j < n → i ≢ j → m i j ≡ false → m j i ≡ true
  pub transitive : (i j k : ℕ) → i < n → j < n → k < n → m i j ≡ true → m j k ≡ true → m i k ≡ true

-- The matrix after the loop.
abbrev pub demoted : ℕ → ℕ → (ℕ → ℕ → Bool) → ℕ → ℕ → Bool
demoted n w m i j =
    if (w == i && ltb j n && not (w == j))
    then false
    else (if (w == j && ltb i n && not (w == i)) then true else m i j)

demote-demoted : (n w : ℕ) (m : ℕ → ℕ → Bool) (i j : ℕ) → demote n w m i j ≡ demoted n w m i j
unfolding demote
demote-demoted zero w m i j = ground arith
demote-demoted (suc n) w m i j = elim (Bool-cases (w == n)) [
  | inl same ↦ rw (same, demote) (ground (arith, demote-demoted n w m i j))
  | inr other ↦
      ground (arith, demote-demoted n w m i j, demote-demoted n w m w j, demote-demoted n w m n j)
]

demoted-IsOrder : (n w : ℕ) (m : ℕ → ℕ → Bool) → IsOrder n m → IsOrder n (demoted n w m)
demoted-IsOrder n w m o = record {
  irreflexive = λ i h. ground (arith, o.irreflexive i h);
  asymmetric = λ i j h k e. ground (arith, o.asymmetric i j h k);
  total = λ i j h k ne e. ground (arith, o.total i j h k ne);
  transitive = λ i j k h h' h'' e e'. ground (arith, o.transitive i j k h h' h'');
}

-- The first matrix is an order.
pub init-IsOrder : (size : ℕ) → IsOrder size (init size).matrix
unfolding init
init-IsOrder size = record {
  irreflexive = λ i h. ground arith;
  asymmetric = λ i j h k e. ground arith;
  total = λ i j h k ne e. ground arith;
  transitive = λ i j k h h' h'' e e'. ground arith;
}

demote-IsOrder : (n w : ℕ) (m : ℕ → ℕ → Bool) → IsOrder n m → IsOrder n (demote n w m)
demote-IsOrder n w m o =
    subst (IsOrder n) (sym (fun_ext (λ i. fun_ext (demote-demoted n w m i))))
      (demoted-IsOrder n w m o)

-- `UpdateState` keeps the matrix an order and puts the input that was selected behind all others,
-- whose order it does not change.
pub update_state-IsOrder :
    (r : Matrix) (w : ℕ)
    → r.selected ≡ pos w
    → w < r.size
    → IsOrder r.size r.matrix
    → IsOrder r.size (update_state r).matrix
      × ((i : ℕ) → i < r.size → i ≢ w → (update_state r).matrix i w ≡ true)
      × ((i j : ℕ) → i ≢ w → j ≢ w → (update_state r).matrix i j ≡ r.matrix i j)
unfolding update_state
update_state-IsOrder r w e h o =
    let m : ℕ → ℕ → Bool = demote r.size w r.matrix in
    let same : (update_state r).matrix ≡ m = rw (e, update_state) refl in
    subst
      (λ (k : ℕ → ℕ → Bool).
        IsOrder r.size k
        × ((i : ℕ) → i < r.size → i ≢ w → k i w ≡ true)
        × ((i j : ℕ) → i ≢ w → j ≢ w → k i j ≡ r.matrix i j))
      (sym same)
      (
        demote-IsOrder r.size w r.matrix o,
        λ i g ne. ground (arith, demote-demoted r.size w r.matrix i w),
        λ i j ne ne'. ground (arith, demote-demoted r.size w r.matrix i j),
      )
