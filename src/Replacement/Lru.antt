-- ===== src/Replacement/Lru.antt =====
-- zsim/src/repl_policies.h, `LRUReplPolicy`: the line with the least score is evicted, where the
-- score is the timestamp of the last use, and sharers weigh more than any timestamp.
pub mod Recency
pub mod Score
pub mod Wrap
use bzsim.Base.{
  ℕ, ◌+◌, ◌-◌, ◌*◌, ◌%◌, ◌^◌, min, Bool, List, [], ◌∷◌, ltb, if◌then◌else◌, bit, update, Outcome,
  ok,
}
use bzsim.Replacement.{Lines, ReplPolicy}

-- The template's argument and the fields.
pub record Lru : Type 0 where
  pub sharers_aware : Bool
  pub timestamp : ℕ
  pub array : ℕ → ℕ
  pub num_lines : ℕ

-- The constructor.
unfoldable pub init : Bool → ℕ → Lru
init aware n = record { sharers_aware = aware; timestamp = 1; array = λ id. 0; num_lines = n }

-- `update`: the 64-bit counter is stored and incremented.
unfoldable pub use_line : Lru → ℕ → Lru
use_line r id = record r {
  array = update r.array id r.timestamp;
  timestamp = (r.timestamp + 1) % 2 ^ 64;
}

-- `replaced`.
unfoldable pub replaced : Lru → ℕ → Lru
replaced r id = record r { array = update r.array id 0 }

-- `score`, in 64 bits.
unfoldable pub score : Lines → Lru → ℕ → ℕ
score cc r id =
    ((if r.sharers_aware then cc.num_sharers id else 0) * r.timestamp
      + r.array id * bit (cc.is_valid id))
    % 2 ^ 64

-- The loop of `rank`: the score is stored in 32 bits.
unfoldable pub rank_loop : Lines → Lru → List ℕ → ℕ → ℕ → ℕ
rank_loop cc r [] best_cand best_score = best_cand
rank_loop cc r (c ∷ cs) best_cand best_score =
    let s = score cc r c % 2 ^ 32 in
    rank_loop cc r cs (if ltb s best_score then c else best_cand) (min s best_score)

-- `rank`: -1 as an unsigned number where there is no candidate.
unfoldable pub rank : Lines → Lru → List ℕ → ℕ
rank cc r cands = rank_loop cc r cands (2 ^ 32 - 1) (2 ^ 64 - 1)

-- The policy as a cache array uses it.
unfoldable pub policy : ReplPolicy Lru
policy = record {
  update = use_line;
  replaced = replaced;
  rank_cands = λ cc r cands. ok (rank cc r cands, r);
}
