-- ===== src/Allocator/Wavefront/Round.antt =====
-- A round of the wavefront allocator: requests are added, and `Allocate` matches them.
use native.Mathlib.Nat.{add-mod_right, mod-eq_of_lt}
use native.Mathlib.Decide.{dec_lt}
use bzsim.Base.{
  ℕ, ◌+◌, ◌-◌, ◌%◌, ◌≤◌, ◌<◌, ◌==◌, ◌≡◌, refl, sym, ap, ◌∙◌, subst, inl, inr, ℤ, pos, negsuc, eqb_ℤ,
  true, false, Bool-cases, lt→ltb, update, update-same, arith, ok,
}
use bzsim.Allocator.Wavefront.{
  Wavefront, Grants, grantable, input_at, scan_levels, grant_last, grants, finish, end_round,
  allocate,
}
use bzsim.Allocator.Wavefront.Matching.{
  Asks, IsMatching, Holds, scan_levels-IsOn, scan_levels-hit, grant-IsMatching,
}

-- Between `Clear` and `Allocate`: nothing is matched, the priorities of all requests are noted, and
-- the last request is there.
pub record IsReady (w : Wavefront) : Type 0 where
  pub free_in : (i : ℕ) → w.inmatch i ≡ negsuc 0
  pub free_out : (j : ℕ) → w.outmatch j ≡ negsuc 0
  pub noted :
      (i j : ℕ) → Asks w i j → Holds ((w.request i j).out_pri, (w.request i j).in_pri) w.priorities
  pub last :
      0 < w.num_requests
      → (i : ℕ) × (j : ℕ) × (w.last_in ≡ pos i) × (w.last_out ≡ pos j) × Asks w i j
  pub wide : w.inputs ≤ w.square
  pub high : w.outputs ≤ w.square
  pub turn : 0 < w.square → w.pri < w.square

-- Every cell lies on one of the diagonals.
cell_at :
    (w : Wavefront) (i j : ℕ)
    → i < w.square
    → j < w.square
    → w.pri < w.square
    → (p : ℕ) × (p < w.square) × (input_at w p j ≡ i)
cell_at w i j hi hj hp = elim (dec_lt (i + j) w.pri) [
  | yes low ↦ (i + j + w.square - w.pri, omega arith, ap (λ x. x % w.square) (omega arith) ∙ twice)
  | no far ↦ elim (dec_lt (i + j) (w.pri + w.square)) [
    | yes near ↦ (i + j - w.pri, omega arith, ap (λ x. x % w.square) (omega arith) ∙ once)
    | no over ↦ (
      i + j - w.pri - w.square,
      omega arith,
      ap (λ x. x % w.square) (omega arith) ∙ mod-eq_of_lt hi,
    )
  ]
]
  where
    once : (i + w.square) % w.square ≡ i
    once = add-mod_right i w.square ∙ mod-eq_of_lt hi

    twice : (i + w.square + w.square) % w.square ≡ i
    twice = add-mod_right (i + w.square) w.square ∙ once

zero-equal : (z : ℤ) → eqb_ℤ z z ≡ true
zero-equal (pos n) = ground arith
zero-equal (negsuc n) = ground arith

unmatched : {a : ℕ} {z : ℤ} → z ≡ negsuc 0 → z ≡ pos a → ⊥
unmatched e f = let g : pos _ ≡ negsuc 0 = sym f ∙ e in cc

-- The requests that can be granted at first are granted in part.
first-grantable :
    (w : Wavefront) (i j : ℕ)
    → IsReady w
    → Asks w i j
    → grantable w
        ((w.request i j).out_pri, (w.request i j).in_pri)
        i
        j
        (record { inmatch = w.inmatch; outmatch = w.outmatch; first_diag = negsuc 0 })
      ≡ true
unfolding grantable
first-grantable w i j r (hi, hj, l) =
    rw
      (
        lt→ltb i w.inputs hi,
        lt→ltb j w.outputs hj,
        r.free_in i,
        r.free_out j,
        l,
        zero-equal (w.request i j).in_pri,
        zero-equal (w.request i j).out_pri,
      )
      refl

-- `Allocate` succeeds on the requests that were added since `Clear`. What it leaves is a matching of
-- requests, in which somebody is matched if there was a request.
pub allocate-IsMatching :
    (w : Wavefront)
    → IsReady w
    → 0 < w.num_requests
    → (w' : Wavefront) × (allocate w ≡ ok w')
      × IsMatching w w'.inmatch w'.outmatch
      × ((i : ℕ) × (j : ℕ) × (w'.inmatch i ≡ pos j))
      × (w'.num_requests ≡ 0)
unfolding allocate grants finish grant_last
allocate-IsMatching w r some =
    let (i, j, at_in, at_out, asks) = r.last some in
    let start : Grants = record {
      inmatch = w.inmatch;
      outmatch = w.outmatch;
      first_diag = negsuc 0;
    } in
    let none : IsMatching w w.inmatch w.outmatch =
      (λ a b e. absurd (unmatched (r.free_in a) e), λ a b e. absurd (unmatched (r.free_out b) e)) in
    let any : (w.num_requests == 0) ≡ false = ground arith in
    elim (Bool-cases (w.num_requests == 1)) [
      | inl e ↦ (
        end_round w (record {
          inmatch = update w.inmatch i (pos j);
          outmatch = update w.outmatch j (pos i);
          first_diag = pos (i + j);
        }),
        rw (any, e, at_in, at_out) refl,
        grant-IsMatching w i j w.inmatch w.outmatch none (r.free_in i) (r.free_out j) asks,
        (i, j, update-same w.inmatch i (pos j)),
        refl,
      )
      | inr e ↦
          let wide = r.wide in
          let high = r.high in
          let on : 0 < w.square = (let a = asks.0 in omega arith) in
          let hi : i < w.square = (let a = asks.0 in omega arith) in
          let hj : j < w.square = (let a = asks.1 in omega arith) in
          let (p, hp, here) = cell_at w i j hi hj (r.turn on) in
          let (fair, how) = scan_levels-IsOn w w.priorities start start (none, inr refl) in
          let (marked, found) =
            scan_levels-hit w w.priorities start start
              ((w.request i j).out_pri, (w.request i j).in_pri) p j (none, inr refl)
              (r.noted i j asks) hp hj
              (subst
                (λ k.
                  grantable w ((w.request i j).out_pri, (w.request i j).in_pri) k j start ≡ true)
                (sym here) (first-grantable w i j r asks)) in
          (
            end_round w (scan_levels w.priorities w start),
            rw (any, e, marked) refl,
            fair,
            found,
            refl,
          )
    ]
