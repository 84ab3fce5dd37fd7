-- ===== src/Replacement/Lru/Score.antt =====
-- `rank` of `LRUReplPolicy` by the score: sharers before timestamps, while the score fits 32 bits.
use bzsim.Base.{
  ℕ, ◌+◌, ◌-◌, ◌*◌, ◌%◌, ◌^◌, ◌≤◌, ◌<◌, min, ◌≡◌, ◌≢◌, ◌⊎◌, refl, ap, inl, inr, true, false, List,
  [], ◌∷◌, ltb, if◌then◌else◌, bit, Bool-cases, arith,
}
use native.Mathlib.Nat.{mul-le-mul_right}
use native.Mathlib.Decide.{dec_lt}
use bzsim.Replacement.{Lines, IsCand, IsPolicy}
use bzsim.Replacement.Lru.{Lru, score, rank_loop, rank, policy}

-- The score as it is stored.
unfoldable pub low : Lines → Lru → ℕ → ℕ
low lines r c = score lines r c % 2 ^ 32

step :
    (lines : Lines) (r : Lru) (cs : List ℕ) (c w : ℕ)
    → rank_loop lines r (c ∷ cs) w (low lines r w)
      ≡ rank_loop lines r cs
          (if ltb (low lines r c) (low lines r w) then c else w)
          (min (low lines r c) (low lines r w))
unfolding rank_loop low
step lines r cs c w = refl

pub record IsLeast (lines : Lines) (r : Lru) (cs : List ℕ) (w : ℕ) : Type 0 where
  pub among : IsCand w cs
  pub least : (c : ℕ) → IsCand c cs → low lines r w ≤ low lines r c

module _ (lines : Lines) (r : Lru) (cs : List ℕ) (w c v : ℕ) where
  IsLeast-skip :
      low lines r c ≤ low lines r w → IsLeast lines r (c ∷ cs) v → IsLeast lines r (w ∷ c ∷ cs) v
  IsLeast-skip h l = record {
    among = inr l.among;
    least = λ x p. elim p [
      | inl e ↦ let f = ap (low lines r) e in omega (arith, f, l.least c (inl refl))
      | inr q ↦ l.least x q
    ];
  }

  IsLeast-keep :
      low lines r w ≤ low lines r c → IsLeast lines r (w ∷ cs) v → IsLeast lines r (w ∷ c ∷ cs) v
  IsLeast-keep h l = record {
    among = elim l.among [ inl e ↦ inl e | inr q ↦ inr (inr q) ];
    least = λ x p. elim p [
      | inl e ↦ l.least x (inl e)
      | inr q ↦ elim q [
        | inl e ↦ let f = ap (low lines r) e in omega (arith, f, l.least w (inl refl))
        | inr t ↦ l.least x (inr t)
      ]
    ];
  }

rank_loop-IsLeast :
    (lines : Lines) (r : Lru) (cs : List ℕ) (w : ℕ)
    → IsLeast lines r (w ∷ cs) (rank_loop lines r cs w (low lines r w))
unfolding rank_loop
rank_loop-IsLeast lines r [] w = record {
  among = inl refl;
  least = λ c p. elim p [ inl e ↦ let f = ap (low lines r) e in nil_least c f | inr q ↦ absurd q ];
}
  where
    nil_least :
        (c : ℕ)
        → low lines r w ≡ low lines r c
        → low lines r (rank_loop lines r [] w (low lines r w)) ≤ low lines r c
    nil_least c f = omega (arith, f)
rank_loop-IsLeast lines r (c ∷ cs) w = elim (Bool-cases (ltb (low lines r c) (low lines r w))) [
  | inl e ↦
      let m : min (low lines r c) (low lines r w) ≡ low lines r c = ground (arith, e) in
      rw (step lines r cs c w, e, m)
        (IsLeast-skip lines r cs w c (rank_loop lines r cs c (low lines r c)) (ground (arith, e))
          (rank_loop-IsLeast lines r cs c))
  | inr e ↦
      let m : min (low lines r c) (low lines r w) ≡ low lines r w = ground (arith, e) in
      rw (step lines r cs c w, e, m)
        (IsLeast-keep lines r cs w c (rank_loop lines r cs w (low lines r w)) (ground (arith, e))
          (rank_loop-IsLeast lines r cs w))
]

low_bound : (lines : Lines) (r : Lru) (c : ℕ) → low lines r c < 2 ^ 32
unfolding low
low_bound lines r c = omega arith

first_step :
    (lines : Lines) (r : Lru) (c : ℕ) (cs : List ℕ)
    → rank lines r (c ∷ cs)
      ≡ rank_loop lines r cs
          (if ltb (low lines r c) (2 ^ 64 - 1) then c else 2 ^ 32 - 1)
          (min (low lines r c) (2 ^ 64 - 1))
unfolding rank rank_loop low
first_step lines r c cs = refl

-- Where a candidate is, the loop's first values play no part.
pub rank-IsLeast :
    (lines : Lines) (r : Lru) (c : ℕ) (cs : List ℕ)
    → IsLeast lines r (c ∷ cs) (rank lines r (c ∷ cs))
rank-IsLeast lines r c cs =
    let first : ltb (low lines r c) (2 ^ 64 - 1) ≡ true = ground (arith, low_bound lines r c) in
    let least : min (low lines r c) (2 ^ 64 - 1) ≡ low lines r c =
      omega (arith, low_bound lines r c) in
    rw (first_step lines r c cs, first, least) (rank_loop-IsLeast lines r cs c)

-- The timestamp that counts: none for an invalid line.
abbrev pub live_stamp : Lines → Lru → ℕ → ℕ
live_stamp lines r c = r.array c * bit (lines.is_valid c)

-- `w` is a candidate, and every other has more sharers, or as many and no earlier a timestamp.
pub record IsVictim (lines : Lines) (r : Lru) (cs : List ℕ) (w : ℕ) : Type 0 where
  pub among : IsCand w cs
  pub before :
      (c : ℕ)
      → IsCand c cs
      → (lines.num_sharers w < lines.num_sharers c)
        ⊎ ((lines.num_sharers w ≡ lines.num_sharers c)
            × (live_stamp lines r w ≤ live_stamp lines r c))

live_stamp_bound :
    (lines : Lines) (r : Lru) (c : ℕ) → r.array c < r.timestamp → live_stamp lines r c < r.timestamp
live_stamp_bound lines r c h = ground arith

-- A sum that the sharers decide first.
sharers_first :
    (m n t x y : ℕ) → x < t → m * t + x ≤ n * t + y → y < t → (m < n) ⊎ ((m ≡ n) × (x ≤ y))
sharers_first m n t x y p h q = elim (dec_lt m n) [
  | yes l ↦ inl l
  | no l ↦ elim (dec_lt n m) [
    | yes g ↦ absurd (omega (arith, mul-le-mul_right t g))
    | no g ↦ let e : m ≡ n = omega arith in inr (e, omega (arith, ap (λ (k : ℕ). k * t) e))
  ]
]

low_fits :
    (lines : Lines) (r : Lru) (c : ℕ)
    → r.sharers_aware ≡ true
    → lines.num_sharers c * r.timestamp + r.timestamp ≤ 2 ^ 32
    → r.array c < r.timestamp
    → low lines r c ≡ lines.num_sharers c * r.timestamp + live_stamp lines r c
unfolding low score
low_fits lines r c a h s =
    let b : live_stamp lines r c ≤ r.array c = ground arith in ground (arith, b)

-- In the policy that is aware of the sharers, a line with fewer sharers is evicted first, valid or
-- not, and among lines with as many an invalid one or the one with the earliest timestamp, while for
-- each candidate the sharers plus 1, times the counter, are at most 2 ^ 32, and no timestamp has
-- reached the counter. So an invalid line with sharers outlives a valid line without.
pub rank-IsVictim :
    (lines : Lines) (r : Lru) (c : ℕ) (cs : List ℕ)
    → r.sharers_aware ≡ true
    → ((x : ℕ) → r.array x < r.timestamp)
    → ((x : ℕ) → IsCand x (c ∷ cs) → lines.num_sharers x * r.timestamp + r.timestamp ≤ 2 ^ 32)
    → IsVictim lines r (c ∷ cs) (rank lines r (c ∷ cs))
      × ((v x : ℕ)
          → IsCand v (c ∷ cs)
          → lines.is_valid v ≡ true
          → lines.num_sharers v ≡ 0
          → lines.is_valid x ≡ false
          → 0 < lines.num_sharers x
          → rank lines r (c ∷ cs) ≢ x)
rank-IsVictim lines r c cs a s h = (victim, outlives)
  where
    w : ℕ
    w = rank lines r (c ∷ cs)

    l : IsLeast lines r (c ∷ cs) w
    l = rank-IsLeast lines r c cs

    fits :
        (x : ℕ)
        → IsCand x (c ∷ cs)
        → low lines r x ≡ lines.num_sharers x * r.timestamp + live_stamp lines r x
    fits x p = low_fits lines r x a (h x p) (s x)

    victim : IsVictim lines r (c ∷ cs) w
    victim = record {
      among = l.among;
      before = λ x p.
          sharers_first (lines.num_sharers w) (lines.num_sharers x) r.timestamp
            (live_stamp lines r w) (live_stamp lines r x) (live_stamp_bound lines r w (s w))
            (omega (arith, l.least x p, fits x p, fits w l.among))
            (live_stamp_bound lines r x (s x));
    }

    outlives :
        (v x : ℕ)
        → IsCand v (c ∷ cs)
        → lines.is_valid v ≡ true
        → lines.num_sharers v ≡ 0
        → lines.is_valid x ≡ false
        → 0 < lines.num_sharers x
        → w ≢ x
    outlives v x p valid none_below gone some e =
        let same = ap lines.num_sharers e in
        elim (victim.before v p) [
          | inl t ↦ absurd (omega (arith, same, t))
          | inr t ↦ absurd (omega (arith, same, t.0))
        ]

-- The policy chooses among any number of candidates, in any state.
pub policy-IsPolicy : (limit : ℕ) → IsPolicy policy limit (λ r. Unit {0}) (λ r. Unit {0})
unfolding policy
policy-IsPolicy limit = record {
  update-Ready = λ r id h. tt;
  update-Busy = λ r id h. tt;
  replaced-Ready = λ r id h. tt;
  rank-Busy =
      λ lines r c cs l m h. (rank lines r (c ∷ cs), r, refl, (rank-IsLeast lines r c cs).among, tt);
}
