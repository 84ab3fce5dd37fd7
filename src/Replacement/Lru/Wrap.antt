-- ===== src/Replacement/Lru/Wrap.antt =====
-- `rank` of `LRUReplPolicy` once the counter has left the 32 bits that the score is stored in.
use bzsim.Base.{
  ℕ, ◌^◌, ◌<◌, ◌≡◌, ◌≢◌, sym, inl, inr, true, false, List, ◌∷◌, ◌==◌, Bool-cases, eq_of_==,
  ==-of-eq, update-same, update-other, arith,
}
use bzsim.Replacement.{Lines, IsCand}
use bzsim.Replacement.Lru.{Lru, use_line, score, rank}
use bzsim.Replacement.Lru.Score.{low, rank-IsLeast}

module _ (lines : Lines) (r : Lru) (w : ℕ) (a : r.sharers_aware ≡ false)
    (t : r.timestamp ≡ 2 ^ 32) where
  low_last_used : low lines (use_line r w) w ≡ 0
  unfolding low score use_line
  low_last_used = ground (arith, update-same r.array w r.timestamp)

  low_other :
      (x : ℕ)
      → x ≢ w
      → lines.is_valid x ≡ true
      → r.array x < 2 ^ 32
      → low lines (use_line r w) x ≡ r.array x
  unfolding low score use_line
  low_other x ne v h =
      let same = update-other r.array w r.timestamp x (λ q. ne (sym q)) in ground (arith, same)

  -- When the counter stands at 2 ^ 32, in the policy that ignores the sharers, the line that is used
  -- next becomes the one that is evicted, wherever it stands among the candidates, while the others
  -- are valid and have timestamps from 1 to 2 ^ 32 - 1: its score is 0 in the 32 bits that `rank`
  -- keeps.
  pub rank_last_used :
      (c : ℕ) (cs : List ℕ)
      → IsCand w (c ∷ cs)
      → ((x : ℕ)
          → IsCand x (c ∷ cs)
          → x ≢ w
          → (lines.is_valid x ≡ true) × (0 < r.array x) × (r.array x < 2 ^ 32))
      → rank lines (use_line r w) (c ∷ cs) ≡ w
  rank_last_used c cs p others =
      let u = use_line r w in
      let v = rank lines u (c ∷ cs) in
      let l = rank-IsLeast lines u c cs in
      elim (Bool-cases (v == w)) [
        | inl e ↦ eq_of_== v w e
        | inr e ↦
            let ne : v ≢ w = λ q. let f = ==-of-eq v w q in cc in
            let (valid, some, few) = others v l.among ne in
            absurd (omega (arith, l.least w p, low_last_used, low_other v ne valid few))
      ]
