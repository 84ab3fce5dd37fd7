-- ===== src/Allocator/Wavefront/Add.antt =====
-- Requests are added to the wavefront allocator one by one.
use bzsim.Base.{
  ℕ, ◌+◌, ◌<◌, ◌==◌, ◌≡◌, ◌≢◌, refl, sym, ap, ap₂, ◌∙◌, subst, ◌⊎◌, inl, inr, ℤ, pos, negsuc,
  is_negative, eqb_ℤ, eq_of_eqb_ℤ, Bool, true, false, not, Bool-cases, both, List, [], ◌∷◌, ltb,
  ltb→lt, update, update-same, update-other, ==-of-eq, eq_of_==, arith, ok, check-ok, ok_inj,
  >>=-eq-ok,
}
use bzsim.Allocator
use bzsim.Allocator.{none_yet, Request, Dense, note_request}
use bzsim.Allocator.Wavefront
use bzsim.Allocator.Wavefront.{Wavefront, insert, before, same, add_request}
use bzsim.Allocator.Wavefront.Matching.{Holds}
use bzsim.Allocator.Wavefront.Round.{IsReady}

negative-label : (l : ℤ) → not (is_negative l) ≡ true → eqb_ℤ l none_yet ≡ false
negative-label (pos n) h = ground arith
negative-label (negsuc n) h = cc

same-eq : (x y : ℤ × ℤ) → same x y ≡ true → x ≡ y
same-eq (a, b) (c, d) h =
    let (p, q) = both (eqb_ℤ a c) (eqb_ℤ b d) h in
    ap₂ (λ u v. (u, v)) (eq_of_eqb_ℤ a c p) (eq_of_eqb_ℤ b d q)

-- What is put in is there, and nothing is lost.
insert-Holds : (x : ℤ × ℤ) (xs : List (ℤ × ℤ)) → Holds x (insert x xs)
unfolding insert
insert-Holds x [] = inl refl
insert-Holds x (y ∷ ys) = elim (Bool-cases (same x y)) [
  | inl e ↦ rw (e) (inl (same-eq x y e))
  | inr e ↦ elim (Bool-cases (before y x)) [
    | inl f ↦ rw (e, f) (inl refl)
    | inr f ↦ rw (e, f) (inr (insert-Holds x ys))
  ]
]

deeper :
    (y z : ℤ × ℤ) (zs zs' : List (ℤ × ℤ))
    → (Holds y zs → Holds y zs')
    → (y ≡ z) ⊎ Holds y zs
    → (y ≡ z) ⊎ Holds y zs'
deeper y z zs zs' f (inl p) = inl p
deeper y z zs zs' f (inr p) = inr (f p)

insert_keeps : (x y : ℤ × ℤ) (xs : List (ℤ × ℤ)) → Holds y xs → Holds y (insert x xs)
unfolding insert
insert_keeps x y [] h = absurd h
insert_keeps x y (z ∷ zs) h = elim (Bool-cases (same x z)) [
  | inl e ↦ rw (e) h
  | inr e ↦ elim (Bool-cases (before z x)) [
    | inl f ↦ rw (e, f) (inr h)
    | inr f ↦ rw (e, f) (deeper y z zs (insert x zs) (insert_keeps x y zs) h)
  ]
]

-- The matrix with one more request.
abbrev with : (ℕ → ℕ → Request) → ℕ → ℕ → Request → ℕ → ℕ → Request
with r i j req = update r i (update (r i) j req)

with-same : (r : ℕ → ℕ → Request) (i j : ℕ) (req : Request) → with r i j req i j ≡ req
with-same r i j req =
    ap (λ row. row j) (update-same r i (update (r i) j req)) ∙ update-same (r i) j req

with-row : (r : ℕ → ℕ → Request) (i j a b : ℕ) (req : Request) → i ≢ a → with r i j req a b ≡ r a b
with-row r i j a b req h = ap (λ row. row b) (update-other r i (update (r i) j req) a h)

with-column : (r : ℕ → ℕ → Request) (i j b : ℕ) (req : Request) → j ≢ b → with r i j req i b ≡ r i b
with-column r i j b req h =
    ap (λ row. row b) (update-same r i (update (r i) j req)) ∙ update-other (r i) j req b h

-- A call that succeeds has passed the tests, and changes one cell.
add_request_lem :
    (d d' : Dense) (i j : ℕ) (req : Request)
    → Allocator.add_request d i j req ≡ ok d'
    → (i < d.inputs)
      × (j < d.outputs)
      × (eqb_ℤ req.label none_yet ≡ false)
      × (record d { base = record d.base { dirty = true }; request = with d.request i j req } ≡ d')
unfolding Allocator.add_request note_request
add_request_lem d d' i j req e =
    let (base, e1, rest) = >>=-eq-ok (note_request d.base i j req.label) _ e in
    let (hi, e2) = check-ok (ltb i d.inputs) _ e1 in
    let (hj, e3) = check-ok (ltb j d.outputs) _ e2 in
    let (hl, e4) = check-ok (not (is_negative req.label)) _ e3 in
    let (free, e5) = check-ok (eqb_ℤ (d.request i j).label none_yet) _ rest in
    (
      ltb→lt i d.inputs hi,
      ltb→lt j d.outputs hj,
      negative-label req.label hl,
      ap (λ x. record { base = x; request = with d.request i j req }) (ok_inj e4) ∙ ok_inj e5,
    )

-- A request that `AddRequest` accepts keeps the round ready: its priorities are noted, and it is the
-- last.
pub add_request-IsReady :
    (w w' : Wavefront) (i j : ℕ) (req : Request)
    → IsReady w
    → add_request w i j req ≡ ok w'
    → IsReady w' × (0 < w'.num_requests)
unfolding add_request
add_request-IsReady w w' i j req r e =
    let (d, e1, e2) = >>=-eq-ok (Allocator.add_request w.dense i j req) _ e in
    let (hi, hj, hl, same) = add_request_lem w.dense d i j req e1 in
    let level : ℤ × ℤ = (req.out_pri, req.in_pri) in
    let next : Dense → Wavefront = λ x. record w {
      dense = x;
      num_requests = w.num_requests + 1;
      last_in = pos i;
      last_out = pos j;
      priorities = insert level w.priorities;
    } in
    subst (λ x. IsReady x × (0 < x.num_requests)) (ap next same ∙ ok_inj e2)
      (
        record {
          free_in = r.free_in;
          free_out = r.free_out;
          noted = noted w i j req r;
          last = λ p. (
            i,
            j,
            refl,
            refl,
            (hi, hj, ap (λ x. eqb_ℤ x.label none_yet) (with-same w.request i j req) ∙ hl),
          );
          wide = r.wide;
          high = r.high;
          turn = r.turn;
        },
        omega arith,
      )
  where
    noted :
        (w : Wavefront) (i j : ℕ) (req : Request)
        → IsReady w
        → (a b : ℕ)
        → (a < w.inputs)
          × (b < w.outputs)
          × (eqb_ℤ (with w.request i j req a b).label none_yet ≡ false)
        → Holds
            ((with w.request i j req a b).out_pri, (with w.request i j req a b).in_pri)
            (insert (req.out_pri, req.in_pri) w.priorities)
    noted w i j req r a b (ha, hb, l) = elim (Bool-cases (i == a)) [
      | inr p ↦ old (with-row w.request i j a b req (λ q. let s = ==-of-eq i a q in cc))
      | inl p ↦ elim (Bool-cases (j == b)) [
        | inr q ↦ old (
            subst (λ x. with w.request i j req x b ≡ w.request x b) (eq_of_== i a p)
              (with-column w.request i j b req (λ u. let s = ==-of-eq j b u in cc)))
        | inl q ↦
            let here : with w.request i j req a b ≡ req =
              subst (λ x. with w.request i j req x b ≡ req) (eq_of_== i a p)
                (subst (λ y. with w.request i j req i y ≡ req) (eq_of_== j b q)
                  (with-same w.request i j req)) in
            subst (λ x. Holds (x.out_pri, x.in_pri) (insert (req.out_pri, req.in_pri) w.priorities))
              (sym here) (insert-Holds (req.out_pri, req.in_pri) w.priorities)
      ]
    ]
      where
        old :
            with w.request i j req a b ≡ w.request a b
            → Holds
                ((with w.request i j req a b).out_pri, (with w.request i j req a b).in_pri)
                (insert (req.out_pri, req.in_pri) w.priorities)
        old k =
            subst (λ x. Holds (x.out_pri, x.in_pri) (insert (req.out_pri, req.in_pri) w.priorities))
              (sym k)
              (insert_keeps (req.out_pri, req.in_pri)
                ((w.request a b).out_pri, (w.request a b).in_pri) w.priorities
                (r.noted a b (ha, hb, ap (λ x. eqb_ℤ x.label none_yet) (sym k) ∙ l)))

-- The first state is ready.
pub init-IsReady : (inputs outputs : ℕ) (skip : Bool) → IsReady (Wavefront.init inputs outputs skip)
unfolding Wavefront.init Allocator.init_dense Allocator.init
init-IsReady inputs outputs skip = record {
  free_in = λ i. refl;
  free_out = λ j. refl;
  noted = λ i j (a, b, e). cc;
  last = λ p. absurd (omega arith);
  wide = omega arith;
  high = omega arith;
  turn = λ p. p;
}
