-- ===== src/Routing/Nearer.antt =====
-- Each hop of dimension-order routing in ascending order brings a flit nearer to its destination.
use native.Mathlib.Nat.{
  add-mul, mul_comm, add-mul-mod_self_right, add-mul-div_right, mul-add-mod_self_right,
  mul-add-div_right, mod-eq_of_lt, div-eq_of_lt, div-add-mod', div-one, div-div-eq-div-mul,
  div-lt_iff_lt-mul, mod-lt,
}
use native.Mathlib.Decide.{dec_lt}
use bzsim.Base.{
  ℕ, zero, suc, ◌+◌, ◌-◌, ◌*◌, ◌/◌, ◌%◌, ◌<◌, ◌==◌, ◌≡◌, ◌≢◌, refl, sym, ap, ap₂, ◌∙◌, subst, ◌⊎◌,
  inl, inr, true, false, Bool-cases, ltb, lt→ltb, ==-of-eq, eq_of_==, arith,
}
use bzsim.Routing.{powi, dim_left, port, dor_next_mesh, left_node, right_node, next_node}

-- The number of hops between two nodes of the mesh.
unfoldable pub hops : ℕ → ℕ → ℕ → ℕ → ℕ
hops zero k a b = 0
hops (suc n) k a b = (a % k - b % k) + (b % k - a % k) + hops n k (a / k) (b / k)

module _ (k : ℕ) (some : 0 < k) where
  parts : (a : ℕ) → a ≡ a / k * k + a % k
  parts a = sym (div-add-mod' a k)

  low : (q r : ℕ) → r < k → (q * k + r) % k ≡ r
  low q r h = mul-add-mod_self_right q k r ∙ mod-eq_of_lt h

  high : (q r : ℕ) → r < k → (q * k + r) / k ≡ q
  high q r h = mul-add-div_right some q r ∙ ap (λ x. q + x) (div-eq_of_lt h) ∙ omega arith

  -- The digit of a dimension.
  abbrev digit : ℕ → ℕ → ℕ
  digit a t = a / powi k t % k

  digit-zero : (a : ℕ) → digit a 0 ≡ a % k
  unfolding powi
  digit-zero a = ap (λ x. x % k) (div-one a)

  digit-suc : (a t : ℕ) → digit a (suc t) ≡ digit (a / k) t
  unfolding powi
  digit-suc a t =
      ap (λ x. a / x % k) (mul_comm (powi k t) k)
      ∙ ap (λ x. x % k) (sym (div-div-eq-div-mul a k (powi k t)))

  -- The lowest digit grows by one, or gets one less.
  next : (a : ℕ) → a % k + 1 < k → ((a + 1) % k ≡ a % k + 1) × ((a + 1) / k ≡ a / k)
  next a h =
      let e : a + 1 ≡ a / k * k + (a % k + 1) = omega (arith, parts a) in
      (
        ap (λ x. x % k) e ∙ low (a / k) (a % k + 1) h,
        ap (λ x. x / k) e ∙ high (a / k) (a % k + 1) h,
      )

  -- One hop in dimension `t`, upwards or downwards.
  abbrev IsUp : ℕ → ℕ → ℕ → ℕ → Type 0
  IsUp n t a b =
      (digit a t + 1 < k)
      × (a + powi k t < powi k n)
      × (hops n k (a + powi k t) b + 1 ≡ hops n k a b)

  abbrev IsDown : ℕ → ℕ → ℕ → ℕ → Type 0
  IsDown n t a b =
      (0 < digit a t) × ((c : ℕ) × (a ≡ c + powi k t) × (hops n k c b + 1 ≡ hops n k a b))

  IsUp-here : (n a b : ℕ) → a < powi k (suc n) → a % k < b % k → IsUp (suc n) 0 a b
  unfolding hops powi
  IsUp-here n a b ha h =
      let room : a % k + 1 < k = (let m = mod-lt b some in omega arith) in
      let (l, u) = next a room in
      let s = digit-zero a in
      let q = (div-lt_iff_lt-mul some).1 ha in
      (
        omega (arith, s, room),
        (div-lt_iff_lt-mul some).0 (omega (arith, u, q)),
        omega (arith, l, ap (λ x. hops n k x (b / k)) u),
      )

  IsDown-here : (n a b : ℕ) → b % k < a % k → IsDown (suc n) 0 a b
  unfolding hops powi
  IsDown-here n a b h =
      let c : ℕ = a / k * k + (a % k - 1) in
      let m = mod-lt a some in
      let e : a ≡ c + 1 = omega (arith, parts a) in
      let l = low (a / k) (a % k - 1) (omega arith) in
      let u = high (a / k) (a % k - 1) (omega arith) in
      let s = digit-zero a in
      (omega (arith, s), (c, e, omega (arith, l, ap (λ x. hops n k x (b / k)) u)))

  -- The same hop a dimension higher.
  IsUp-suc : (n t a b : ℕ) → a % k ≡ b % k → IsUp n t (a / k) (b / k) → IsUp (suc n) (suc t) a b
  unfolding hops powi
  IsUp-suc n t a b e (room, inside, near) =
      let s = digit-suc a t in
      (
        omega (arith, s, room),
        (div-lt_iff_lt-mul some).0 (omega (arith, add-mul-div_right a (powi k t) some, inside)),
        omega (
          arith,
          add-mul-mod_self_right a (powi k t) k,
          ap (λ x. hops n k x (b / k)) (add-mul-div_right a (powi k t) some),
          near,
          e,
        ),
      )

  IsDown-suc :
      (n t a b : ℕ) → a % k ≡ b % k → IsDown n t (a / k) (b / k) → IsDown (suc n) (suc t) a b
  unfolding hops powi
  IsDown-suc n t a b e (room, (c, from, near)) =
      let s = digit-suc a t in
      let m = mod-lt a some in
      let l = low c (a % k) m in
      let u = high c (a % k) m in
      let wide : a / k * k ≡ c * k + powi k t * k = ap (λ x. x * k) from ∙ add-mul c (powi k t) k in
      (
        omega (arith, s, room),
        (
          c * k + a % k,
          omega (arith, parts a, wide),
          omega (arith, l, ap (λ x. hops n k x (b / k)) u, near, e),
        ),
      )

  -- The port leads one hop nearer, upwards or downwards in some dimension.
  abbrev Leads : ℕ → ℕ → ℕ → ℕ → ℕ → Type 0
  Leads n dim a b p =
      (t : ℕ) × (((p ≡ 2 * (dim + t)) × IsUp n t a b) ⊎ ((p ≡ 2 * (dim + t) + 1) × IsDown n t a b))

  here :
      (n dim a b : ℕ)
      → a < powi k (suc n)
      → a % k ≢ b % k
      → Leads (suc n) dim a b (port k (dim, a, b))
  here n dim a b ha differ = elim (dec_lt (a % k) (b % k)) [
    | yes h ↦ (0, inl (rw (lt→ltb (a % k) (b % k) h) (omega arith), IsUp-here n a b ha h))
    | no h ↦
        let f : ltb (a % k) (b % k) ≡ false = ground arith in
        (0, inr (rw (f) (omega arith), IsDown-here n a b (omega arith)))
  ]

  small : (a : ℕ) → a < powi k 1 → a % k ≡ a
  unfolding powi
  small a h = mod-eq_of_lt (omega arith)

  smaller : (n a : ℕ) → a < powi k (suc n) → a / k < powi k n
  unfolding powi
  smaller n a h = (div-lt_iff_lt-mul some).1 h

  toward :
      (n dim a b : ℕ)
      → a < powi k (suc n)
      → b < powi k (suc n)
      → a ≢ b
      → Leads (suc n) dim a b (port k (dim_left n k dim a b))
  unfolding dim_left
  toward zero dim a b ha hb differ =
      here zero dim a b ha (λ e. differ (sym (small a ha) ∙ e ∙ small b hb))
  toward (suc n) dim a b ha hb differ = elim (Bool-cases (a % k == b % k)) [
    | inr e ↦ rw (e) (here (suc n) dim a b ha (λ f. let g = ==-of-eq (a % k) (b % k) f in cc))
    | inl e ↦
        let same = eq_of_== (a % k) (b % k) e in
        let further : a / k ≢ b / k =
          λ f. differ (parts a ∙ ap₂ (λ x y. x * k + y) f same ∙ sym (parts b)) in
        let (t, way) =
          toward n (dim + 1) (a / k) (b / k) (smaller (suc n) a ha) (smaller (suc n) b hb)
            further in
        (
          suc t,
          elim way [
            | inl (p, up) ↦ inl (rw (e) (p ∙ omega arith), IsUp-suc (suc n) t a b same up)
            | inr (p, down) ↦ inr (rw (e) (p ∙ omega arith), IsDown-suc (suc n) t a b same down)
          ],
        )
  ]

  -- A step in a dimension whose digit has room does not wrap around.
  right_node-up : (t a : ℕ) → digit a t + 1 < k → right_node k a t ≡ a + powi k t
  unfolding right_node
  right_node-up t a h = let e : (digit a t == k - 1) ≡ false = ground arith in rw (e) refl

  left_node-down : (t a c : ℕ) → 0 < digit a t → a ≡ c + powi k t → left_node k a t ≡ c
  unfolding left_node
  left_node-down t a c h f =
      let e : (digit a t == 0) ≡ false = ground arith in rw (e) (omega (arith, f))

  next_right : (a t p : ℕ) → p ≡ 2 * (0 + t) → next_node k a p ≡ right_node k a t
  unfolding next_node
  next_right a t p f =
      let e : (p % 2 == 0) ≡ true = ==-of-eq (p % 2) 0 (omega (arith, f)) in
      let h : p / 2 ≡ t = omega (arith, f) in rw (e, h) refl

  next_left : (a t p : ℕ) → p ≡ 2 * (0 + t) + 1 → next_node k a p ≡ left_node k a t
  unfolding next_node
  next_left a t p f =
      let e : (p % 2 == 0) ≡ false = (let g : p % 2 ≡ 1 = omega (arith, f) in rw (g) refl) in
      let h : p / 2 ≡ t = omega (arith, f) in rw (e, h) refl

  away :
      (n nodes a b : ℕ)
      → a ≢ b
      → dor_next_mesh k (suc n) nodes a b false ≡ port k (dim_left n k 0 a b)
  unfolding dor_next_mesh
  away n nodes a b differ = elim (Bool-cases (a == b)) [
    | inl e ↦ absurd (differ (eq_of_== a b e))
    | inr e ↦ rw (e) (ap (λ x. port k (dim_left x k 0 a b)) (omega arith))
  ]

  -- A hop of a flit that is not at its destination brings it nearer by one, and stays in the mesh.
  pub dor_next_mesh-nearer :
      (n nodes a b : ℕ)
      → a < powi k (suc n)
      → b < powi k (suc n)
      → a ≢ b
      → (next_node k a (dor_next_mesh k (suc n) nodes a b false) < powi k (suc n))
        × (hops (suc n) k (next_node k a (dor_next_mesh k (suc n) nodes a b false)) b + 1
            ≡ hops (suc n) k a b)
  dor_next_mesh-nearer n nodes a b ha hb differ =
      let (t, way) = toward n 0 a b ha hb differ in
      let go = away n nodes a b differ in
      let Near : ℕ → Type 0 =
        λ x. (x < powi k (suc n)) × (hops (suc n) k x b + 1 ≡ hops (suc n) k a b) in
      elim way [
        | inl (p, (room, inside, near)) ↦
            subst Near
              (sym (
                next_right a t (dor_next_mesh k (suc n) nodes a b false) (go ∙ p)
                ∙ right_node-up t a room))
              (inside, near)
        | inr (p, (room, (c, from, near))) ↦
            subst Near
              (sym (
                next_left a t (dor_next_mesh k (suc n) nodes a b false) (go ∙ p)
                ∙ left_node-down t a c room from))
              (omega (arith, from, ha), near)
      ]

  hops_self : (n a : ℕ) → hops n k a a ≡ 0
  unfolding hops
  hops_self zero a = refl
  hops_self (suc n) a = omega (arith, hops_self n (a / k))

  hops-zero : (n a b : ℕ) → a < powi k n → b < powi k n → hops n k a b ≡ 0 → a ≡ b
  unfolding hops powi
  hops-zero zero a b ha hb e = omega arith
  hops-zero (suc n) a b ha hb e =
      let f =
        hops-zero n (a / k) (b / k) ((div-lt_iff_lt-mul some).1 ha) ((div-lt_iff_lt-mul some).1 hb)
          (omega (arith, e)) in
      let same : a % k ≡ b % k = omega (arith, e) in
      parts a ∙ ap₂ (λ x y. x * k + y) f same ∙ sym (parts b)

-- The node after `m` hops.
unfoldable pub travel : ℕ → ℕ → ℕ → ℕ → ℕ → ℕ → ℕ
travel zero k n nodes a b = a
travel (suc m) k n nodes a b =
    travel m k n nodes (next_node k a (dor_next_mesh k n nodes a b false)) b

arrives :
    (k n nodes b : ℕ)
    → 0 < k
    → b < powi k (suc n)
    → (m a : ℕ) → a < powi k (suc n)
    → hops (suc n) k a b ≡ m
    → travel m k (suc n) nodes a b ≡ b
unfolding travel
arrives k n nodes b some hb zero a ha e = hops-zero k some (suc n) a b ha hb e
arrives k n nodes b some hb (suc m) a ha e = elim (Bool-cases (a == b)) [
  | inl f ↦
      let s = hops_self k some (suc n) a in
      let g = ap (hops (suc n) k a) (eq_of_== a b f) in absurd (omega (arith, s, g, e))
  | inr f ↦
      let (inside, near) =
        dor_next_mesh-nearer k some n nodes a b ha hb (λ g. let h = ==-of-eq a b g in cc) in
      arrives k n nodes b some hb m (next_node k a (dor_next_mesh k (suc n) nodes a b false)) inside
        (omega (arith, near, e))
]

-- On a mesh of any size, a flit that follows `dor_next_mesh` in ascending order is at its
-- destination after exactly as many hops as the nodes are apart.
pub travel-arrives :
    (k n nodes a b : ℕ)
    → 0 < k
    → a < powi k (suc n)
    → b < powi k (suc n)
    → travel (hops (suc n) k a b) k (suc n) nodes a b ≡ b
travel-arrives k n nodes a b some ha hb = arrives k n nodes b some hb (hops (suc n) k a b) a ha refl
