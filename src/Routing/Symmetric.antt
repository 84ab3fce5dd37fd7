-- ===== src/Routing/Symmetric.antt =====
-- The neighbours of a node: its right neighbour has it as the left one, at the edges too, so that
-- the channels that `_BuildNet` joins are those of the same two nodes.
use native.Mathlib.Nat.{
  mul-add-mod_self_right, add-mul-div_right, add-div_right, mod-eq_of_lt, div-add-mod', mod-lt,
  mod-add-mod, mul-pos, mul-le-mul_right,
}
use bzsim.Base.{
  ℕ, zero, suc, ◌+◌, ◌-◌, ◌*◌, ◌/◌, ◌%◌, ◌≤◌, ◌<◌, ◌==◌, ◌≡◌, ◌≢◌, sym, ap, ◌∙◌, true, false,
  Bool-cases, inl, inr, ==-of-eq, eq_of_==, arith,
}
use bzsim.Routing.{powi, left_node, right_node}

module _ (k : ℕ) (some : 0 < k) where
  powi-positive : (t : ℕ) → 0 < powi k t
  unfolding powi
  powi-positive zero = omega arith
  powi-positive (suc t) = mul-pos (powi-positive t) some

  -- A digit that has room, and the next.
  up_digit : (q : ℕ) → q % k ≢ k - 1 → (q + 1) % k ≡ q % k + 1
  up_digit q h = let m = mod-lt q some in sym (mod-add-mod q k 1) ∙ mod-eq_of_lt (omega arith)

  -- The highest digit, and none.
  down_digit : (q : ℕ) → q % k ≡ k - 1 → (k - 1 ≤ q) × ((q - (k - 1)) % k ≡ 0)
  down_digit q h =
      let e = div-add-mod' q k in
      (
        omega (arith, e, h),
        ap (λ x. x % k) (omega (arith, e, h))
            ∙ mul-add-mod_self_right (q / k) k 0
            ∙ mod-eq_of_lt some,
      )

  -- The left neighbour of the right neighbour of a node is the node.
  pub left_node-right_node : (a t : ℕ) → left_node k (right_node k a t) t ≡ a
  unfolding left_node right_node
  left_node-right_node a t = elim (Bool-cases (a / powi k t % k == k - 1)) [
    | inr e ↦
        let p = powi-positive t in
        let d = add-div_right a p in
        let g : (a + powi k t) / powi k t % k ≡ a / powi k t % k + 1 =
          ap (λ x. x % k) d
          ∙ up_digit (a / powi k t) (λ f. let s = ==-of-eq (a / powi k t % k) (k - 1) f in cc) in
        let z : ((a + powi k t) / powi k t % k == 0) ≡ false = (rw (g) (ground arith)) in
        rw (e, z) (omega arith)
    | inl e ↦
        let p = powi-positive t in
        let q : ℕ = a / powi k t in
        let c : ℕ = a - (k - 1) * powi k t in
        let (enough, none) = down_digit q (eq_of_== (q % k) (k - 1) e) in
        let least : (k - 1) * powi k t ≤ a =
          omega (arith, mul-le-mul_right (powi k t) enough, div-add-mod' a (powi k t)) in
        let back : c + (k - 1) * powi k t ≡ a = omega (arith, least) in
        let over : q ≡ c / powi k t + (k - 1) =
          ap (λ x. x / powi k t) (sym back) ∙ add-mul-div_right c (k - 1) p in
        let edge : c / powi k t % k ≡ 0 = ap (λ x. x % k) (omega (arith, over)) ∙ none in
        let z : (c / powi k t % k == 0) ≡ true = ==-of-eq (c / powi k t % k) 0 edge in
        rw (e, z) back
  ]
