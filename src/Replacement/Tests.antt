-- ===== src/Replacement/Tests.antt =====
-- Runs of the replacement policies.
use bzsim.Base.{
  ℕ, ◌+◌, ◌-◌, ◌^◌, ◌≤◌, ◌<◌, ◌≡◌, ◌≢◌, refl, inl, inr, true, false, List, [], ◌∷◌, arith, ok, some,
  ◌==◌, if◌then◌else◌,
}
use bzsim.Replacement.{Lines, IsCand}
use bzsim.Replacement.Nru
use bzsim.Replacement.Nru.{Nru}
use bzsim.Replacement.Nru.Oldest.{IsFresh, rank-least}
use bzsim.Replacement.TreeLru.{TreeLru, get_best_candidate}
use bzsim.Replacement.TreeLru.Spared.{get_best_candidate-spares}
use bzsim.Replacement.Lru
use bzsim.Replacement.Lru.{Lru, use_line, rank}
use bzsim.Replacement.Lru.Recency.{Event, used, evicted, play, recency, oldest, play-oldest}
use bzsim.Replacement.Lru.Score.{IsVictim, rank-IsVictim}
use bzsim.Replacement.Lru.Wrap.{rank_last_used}

abbrev all_valid : Lines
all_valid = record { num_sharers = λ id. if id == 2 then 1 else 0; is_valid = λ id. true }

abbrev history : List Event
history = used 0 ∷ used 1 ∷ used 2 ∷ evicted 1 ∷ used 1 ∷ used 0 ∷ []

play-oldest_example :
    rank all_valid (play (Lru.init false 4) history) (0 ∷ 1 ∷ 2 ∷ [])
    ≡ oldest (recency [] history) (0 ∷ 1 ∷ 2 ∷ [])
play-oldest_example = play-oldest all_valid 4 history (0 ∷ 1 ∷ 2 ∷ []) (omega arith) (λ c p. refl)

-- Line 2 is the victim.
second_line : oldest (recency [] history) (0 ∷ 1 ∷ 2 ∷ []) ≡ 2
unfolding oldest bzsim.Replacement.Lru.Recency.oldest_from recency
    bzsim.Replacement.Lru.Recency.depth bzsim.Replacement.Lru.Recency.remove
second_line = refl

abbrev shared_line : Lru
shared_line = record { sharers_aware = true; timestamp = 9; array = λ id. 8 - id; num_lines = 4 }

-- Line 1 is invalid and has a sharer.
abbrev one_gone : Lines
one_gone = record {
  num_sharers = λ id. if id == 1 then 1 else 0;
  is_valid = λ id. if id == 1 then false else true;
}

rank-IsVictim_example :
    IsVictim one_gone shared_line (0 ∷ 1 ∷ 2 ∷ []) (rank one_gone shared_line (0 ∷ 1 ∷ 2 ∷ []))
    × ((v x : ℕ)
        → IsCand v (0 ∷ 1 ∷ 2 ∷ [])
        → one_gone.is_valid v ≡ true
        → one_gone.num_sharers v ≡ 0
        → one_gone.is_valid x ≡ false
        → 0 < one_gone.num_sharers x
        → rank one_gone shared_line (0 ∷ 1 ∷ 2 ∷ []) ≢ x)
rank-IsVictim_example =
    rank-IsVictim one_gone shared_line 0 (1 ∷ 2 ∷ []) refl (λ x. omega arith) (λ x p. ground arith)

rank_last_used_example :
    rank all_valid
      (use_line (record shared_line { sharers_aware = false; timestamp = 2 ^ 32 }) 3)
      (0 ∷ 3 ∷ 1 ∷ [])
    ≡ 3
rank_last_used_example =
    rank_last_used all_valid (record shared_line { sharers_aware = false; timestamp = 2 ^ 32 }) 3
      refl refl 0 (3 ∷ 1 ∷ []) (inr (inl refl)) (λ x p ne. (refl, ground arith, omega arith))

abbrev four : Nru
four = record {
  array = λ id. if id == 1 then 1 else 2;
  cand_array = λ i. 0;
  num_lines = 4;
  num_cands = 2;
  young_lines = 1;
  cand_val = 2 ^ 20;
  cand_idx = 0;
}

four-IsFresh : IsFresh four
four-IsFresh = record { none_yet = refl; any_value = refl; two_bits = λ i. ground arith }

rank-least_example :
    (w : ℕ) × (s : Nru) × (Nru.rank four (0 ∷ 1 ∷ []) ≡ ok (w, s))
    × IsCand w (0 ∷ 1 ∷ [])
    × ((x : ℕ) → IsCand x (0 ∷ 1 ∷ []) → four.array w ≤ four.array x)
    × (s.array ≡ four.array)
    × (s.num_cands ≡ 2)
rank-least_example = rank-least four 0 (1 ∷ []) (omega arith) (omega arith) four-IsFresh

-- The second use makes all lines age.
aging : (Nru.use_line (Nru.use_line (Nru.init 4 2) 3) 1).array 3 ≡ 1
unfolding Nru.use_line Nru.touch Nru.age_lines Nru.init
aging = refl

abbrev pair : TreeLru
pair = record { base = Lru.init true 4; cand_array = λ i. i; num_cands = 4; cand_idx = 4 }

abbrev tree : TreeLru
tree = record pair { base = record pair.base { array = λ id. id + 1 } }

get_best_candidate-spares_example :
    (w : ℕ) × (get_best_candidate tree ≡ ok (some (tree.cand_array w))) × (w < 4) × (w ≢ 3)
get_best_candidate-spares_example =
    get_best_candidate-spares tree 3 (omega arith) refl (omega arith) (λ j h ne. omega arith)
