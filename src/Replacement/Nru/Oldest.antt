-- ===== src/Replacement/Nru/Oldest.antt =====
-- `rank` of `NRUReplPolicy` returns a candidate with the least bits.
use bzsim.Base.{
  ℕ, suc, ◌+◌, ◌%◌, ◌^◌, ◌≤◌, ◌<◌, ◌≡◌, ◌⊎◌, inl, inr, refl, sym, List, [], ◌∷◌, length, ltb, ◌==◌,
  update, arith, Bool-cases, ap, ◌∙◌, ok, lt→ltb,
}
use bzsim.Replacement.{IsCand, IsPolicy}
use bzsim.Replacement.Nru.{
  Nru, touch, age_lines, use_line, replaced, store_candidate, record_candidate, record_all,
  get_best_candidate, rank, policy,
}
use bzsim.Replacement.Nru.Young.{two_bits-use_line}
use native.Mathlib.Nat.{mod-lt}

-- The candidates seen so far: those kept all have the least value.
record Kept (r : Nru) (P : ℕ → Type 0) : Type 0 where
  from : (k : ℕ) → k < r.cand_idx → P (r.cand_array k)
  value : (k : ℕ) → k < r.cand_idx → r.array (r.cand_array k) ≡ r.cand_val
  least : (c : ℕ) → P c → r.cand_val ≤ r.array c
  some_kept : (0 < r.cand_idx) ⊎ (r.cand_val ≡ 2 ^ 20)

-- At most `n` candidates more are kept in `s` than in `r`.
record Recorded (r s : Nru) (n : ℕ) (P : ℕ → Type 0) : Type 0 where
  kept : Kept s P
  same_array : s.array ≡ r.array
  same_room : s.num_cands ≡ r.num_cands
  few : s.cand_idx ≤ r.cand_idx + n

-- Nothing is seen yet.
pub record IsFresh (r : Nru) : Type 0 where
  pub none_yet : r.cand_idx ≡ 0
  pub any_value : r.cand_val ≡ 2 ^ 20
  pub two_bits : (i : ℕ) → r.array i < 4

-- The three branches of `recordCandidate`.
abbrev only : Nru → ℕ → Nru
only r c = record r { cand_val = r.array c; cand_array = update r.cand_array 0 c; cand_idx = 1 }

abbrev one_more : Nru → ℕ → Nru
one_more r c = record r {
  cand_array = update r.cand_array r.cand_idx c;
  cand_idx = (r.cand_idx + 1) % 2 ^ 32;
}

record_candidate-cases :
    (r : Nru) (c : ℕ)
    → r.cand_idx < r.num_cands
    → ((record_candidate r c ≡ ok (only r c)) × (r.array c < r.cand_val))
      ⊎ ((record_candidate r c ≡ ok (one_more r c)) × (r.array c ≡ r.cand_val))
      ⊎ ((record_candidate r c ≡ ok r) × (r.cand_val < r.array c))
unfolding record_candidate store_candidate
record_candidate-cases r c room =
    let next = lt→ltb r.cand_idx r.num_cands room in
    let first = lt→ltb 0 r.num_cands (omega (arith, room)) in
    elim (Bool-cases (ltb (r.array c) r.cand_val)) [
      | inl less ↦ inl (rw (less, first) refl, ground arith)
      | inr no_less ↦ elim (Bool-cases (r.array c == r.cand_val)) [
        | inl same ↦ inr (inl (rw (no_less, same, next) refl, ground arith))
        | inr more ↦ inr (inr (rw (no_less, more) refl, ground arith))
      ]
    ]

module _ (r : Nru) (P : ℕ → Type 0) (c : ℕ) (k : Kept r P) where
  abbrev Seen : ℕ → Type 0
  Seen x = (x ≡ c) ⊎ P x

  only-Kept : r.array c < r.cand_val → Kept (only r c) Seen
  only-Kept h = record {
    from = λ j l. inl (here j l);
    value = λ j l. ap r.array (here j l);
    least = λ x p. elim p [
      | inl e ↦ let f = ap r.array e in omega arith
      | inr q ↦ let f = k.least x q in omega arith
    ];
    some_kept = inl (omega arith);
  }
    where
      here : (j : ℕ) → j < 1 → update r.cand_array 0 c j ≡ c
      here j l = ground arith

  one_more-Kept : r.cand_idx + 1 < 2 ^ 32 → r.array c ≡ r.cand_val → Kept (one_more r c) Seen
  one_more-Kept h e = record {
    from = λ j l. elim (Bool-cases (r.cand_idx == j)) [
      | inl q ↦ inl (rw (q) refl)
      | inr q ↦ rw (q) (inr (k.from j (ground arith)))
    ];
    value = λ j l. elim (Bool-cases (r.cand_idx == j)) [
      | inl q ↦ rw (q) e
      | inr q ↦ rw (q) (k.value j (ground arith))
    ];
    least = λ x p. elim p [ inl q ↦ let f = ap r.array q in omega arith | inr q ↦ k.least x q ];
    some_kept = inl (omega arith);
  }

  same-Kept : r.cand_val < r.array c → Kept r Seen
  same-Kept h = record {
    from = λ j l. inr (k.from j l);
    value = k.value;
    least = λ x p. elim p [ inl q ↦ let f = ap r.array q in omega arith | inr q ↦ k.least x q ];
    some_kept = k.some_kept;
  }

  -- What `recordCandidate` leaves.
  record_candidate-Recorded :
      r.cand_idx + 1 < 2 ^ 32
      → r.cand_idx < r.num_cands
      → (s : Nru) × (record_candidate r c ≡ ok s) × Recorded r s 1 Seen
  record_candidate-Recorded h room = elim (record_candidate-cases r c room) [
    | inl (e, l) ↦ (
      only r c,
      e,
      record { kept = only-Kept l; same_array = refl; same_room = refl; few = omega arith },
    )
    | inr more ↦ elim more [
      | inl (e, q) ↦ (
        one_more r c,
        e,
        record { kept = one_more-Kept h q; same_array = refl; same_room = refl; few = omega arith },
      )
      | inr (e, l) ↦ (
        r,
        e,
        record { kept = same-Kept l; same_array = refl; same_room = refl; few = omega arith },
      )
    ]
  ]

Kept-map :
    {r : Nru} {P Q : ℕ → Type 0}
    → ((x : ℕ) → P x → Q x)
    → ((x : ℕ) → Q x → P x)
    → Kept r P
    → Kept r Q
Kept-map f g k = record {
  from = λ j l. f _ (k.from j l);
  value = k.value;
  least = λ c q. k.least c (g c q);
  some_kept = k.some_kept;
}

Seen-append :
    {s : Nru} {P : ℕ → Type 0} (c : ℕ) (cs : List ℕ)
    → Kept s (λ x. ((x ≡ c) ⊎ P x) ⊎ IsCand x cs)
    → Kept s (λ x. P x ⊎ IsCand x (c ∷ cs))
Seen-append c cs =
    Kept-map
      (λ x q. elim q [
        | inl p ↦ elim p [ inl e ↦ inr (inl (sym e)) | inr t ↦ inl t ]
        | inr t ↦ inr (inr t)
      ])
      (λ x q. elim q [
        | inl p ↦ inl (inr p)
        | inr t ↦ elim t [ inl e ↦ inl (inl (sym e)) | inr u ↦ inr u ]
      ])

record_all-Recorded :
    (r : Nru) (P : ℕ → Type 0) (cs : List ℕ)
    → r.cand_idx + length cs < 2 ^ 32
    → r.cand_idx + length cs ≤ r.num_cands
    → Kept r P
    → (s : Nru) × (record_all r cs ≡ ok s) × Recorded r s (length cs) (λ x. P x ⊎ IsCand x cs)
unfolding record_all
record_all-Recorded r P [] h room k = (
  r,
  refl,
  record {
    kept = Kept-map (λ x p. inl p) (λ x q. elim q [ inl p ↦ p | inr b ↦ absurd b ]) k;
    same_array = refl;
    same_room = refl;
    few = omega arith;
  },
)
record_all-Recorded r P (c ∷ cs) h room k =
    let (s, e, one) = record_candidate-Recorded r P c k (omega arith) (omega arith) in
    let (t, f, all) =
      record_all-Recorded s (λ x. (x ≡ c) ⊎ P x) cs (omega (arith, one.few))
        (omega (arith, one.few, one.same_room)) one.kept in
    (
      t,
      rw (e) f,
      record {
        kept = Seen-append c cs all.kept;
        same_array = all.same_array ∙ one.same_array;
        same_room = all.same_room ∙ one.same_room;
        few = omega (arith, one.few, all.few);
      },
    )

IsFresh-Kept : (r : Nru) → IsFresh r → Kept r (λ x. ⊥)
IsFresh-Kept r f = record {
  from = λ k h. absurd (omega (arith, f.none_yet));
  value = λ k h. absurd (omega (arith, f.none_yet));
  least = λ c p. absurd p;
  some_kept = inr f.any_value;
}

-- Between replacements, with two bits for each line, `rank` succeeds for at most `numCands`
-- candidates, where `numCands` is below 2 ^ 32, and returns one of them, whose two bits are the least
-- of all candidates'. The lines' bits and `numCands` stay.
pub rank-least :
    (r : Nru) (c : ℕ) (cs : List ℕ)
    → r.num_cands < 2 ^ 32
    → suc (length cs) ≤ r.num_cands
    → IsFresh r
    → (w : ℕ) × (s : Nru) × (rank r (c ∷ cs) ≡ ok (w, s))
      × IsCand w (c ∷ cs)
      × ((x : ℕ) → IsCand x (c ∷ cs) → r.array w ≤ r.array x)
      × (s.array ≡ r.array)
      × (s.num_cands ≡ r.num_cands)
unfolding rank get_best_candidate
rank-least r c cs narrow room f =
    let (s, e, all) =
      record_all-Recorded r (λ x. ⊥) (c ∷ cs) (omega (arith, f.none_yet))
        (omega (arith, f.none_yet)) (IsFresh-Kept r f) in
    let k = all.kept in
    let same = all.same_array in
    let seen : s.cand_val ≤ s.array c = k.least c (inr (inl refl)) in
    let at = ap (λ (g : ℕ → ℕ). g c) same in
    let some : 0 < s.cand_idx = elim k.some_kept [
      | inl p ↦ p
      | inr q ↦ absurd (omega (arith, q, seen, at, f.two_bits c))
    ] in
    let i = s.young_lines % s.cand_idx in
    let l : i < s.cand_idx = mod-lt s.young_lines some in
    let w = s.cand_array i in
    let here = ap (λ (g : ℕ → ℕ). g w) same in
    (
      w,
      s,
      rw (e, lt→ltb 0 s.cand_idx some) refl,
      elim (k.from i l) [ inl b ↦ absurd b | inr p ↦ p ],
      (λ x p.
          let there = ap (λ (g : ℕ → ℕ). g x) same in
          omega (arith, here, there, k.value i l, k.least x (inr p))),
      same,
      all.same_room,
    )

idx-use_line : (r : Nru) (id : ℕ) → (use_line r id).cand_idx ≡ r.cand_idx
unfolding use_line touch age_lines
idx-use_line r id = ground arith

val-use_line : (r : Nru) (id : ℕ) → (use_line r id).cand_val ≡ r.cand_val
unfolding use_line touch age_lines
val-use_line r id = ground arith

room-use_line : (r : Nru) (id : ℕ) → (use_line r id).num_cands ≡ r.num_cands
unfolding use_line touch age_lines
room-use_line r id = ground arith

use_line-IsFresh : (r : Nru) (id : ℕ) → IsFresh r → IsFresh (use_line r id)
use_line-IsFresh r id f = record {
  none_yet = idx-use_line r id ∙ f.none_yet;
  any_value = val-use_line r id ∙ f.any_value;
  two_bits = two_bits-use_line r id f.two_bits;
}

replaced-IsFresh : (r : Nru) (id : ℕ) → ((i : ℕ) → r.array i < 4) → IsFresh (replaced r id)
unfolding replaced
replaced-IsFresh r id b = record {
  none_yet = refl;
  any_value = refl;
  two_bits = λ i. ground (arith, b i);
}

-- Two bits for each line, and room for `n` candidates.
record IsRoomy (n : ℕ) (r : Nru) : Type 0 where
  bits : (i : ℕ) → r.array i < 4
  room : r.num_cands ≡ n

-- The policy as a cache array relies on it: fresh between replacements, for as many candidates as it
-- was built for.
policy-IsPolicy :
    (n : ℕ) → n < 2 ^ 32 → IsPolicy policy n (λ r. IsFresh r × (r.num_cands ≡ n)) (IsRoomy n)
unfolding policy replaced
policy-IsPolicy n narrow = record {
  update-Ready = λ r id h. (use_line-IsFresh r id h.0, room-use_line r id ∙ h.1);
  update-Busy =
      λ r id b. record { bits = two_bits-use_line r id b.bits; room = room-use_line r id ∙ b.room };
  replaced-Ready = λ r id b. (replaced-IsFresh r id b.bits, b.room);
  rank-Busy = λ lines r c cs h m f.
      let (w, s, e, p, l, same, room) =
        rank-least r c cs (omega (arith, f.1)) (omega (arith, f.1)) f.0 in
      (
        w,
        s,
        e,
        p,
        record {
          bits = λ i. let at = ap (λ (g : ℕ → ℕ). g i) same in omega (arith, at, f.0.two_bits i);
          room = room ∙ f.1;
        },
      );
}
