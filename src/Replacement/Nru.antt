-- ===== src/Replacement/Nru.antt =====
-- zsim/src/repl_policies.h, `NRUReplPolicy` and the calls of `LegacyReplPolicy` around it: each line
-- has two bits of age, and one of the oldest candidates is evicted.
pub mod Young
pub mod Oldest
use Prim.Native.Nat.{bit_or}
use bzsim.Base.{
  ℕ, ◌+◌, ◌-◌, ◌/◌, ◌%◌, ◌^◌, List, [], ◌∷◌, ltb, leb, ◌==◌, if◌then◌else◌, update, Outcome, ok,
  stop, ◌>>=◌, ◌>>◌, check,
}
use bzsim.Base.Fault.{undefined}
use bzsim.Replacement.{Lines, ReplPolicy}

-- The fields. `cand_array` holds the candidates with the least value so far.
pub record Nru : Type 0 where
  pub array : ℕ → ℕ
  pub cand_array : ℕ → ℕ
  pub num_lines : ℕ
  pub num_cands : ℕ
  pub young_lines : ℕ
  pub cand_val : ℕ
  pub cand_idx : ℕ

-- The constructor.
unfoldable pub init : ℕ → ℕ → Nru
init num_lines num_cands = record {
  array = λ id. 0;
  cand_array = λ i. 0;
  num_lines = num_lines;
  num_cands = num_cands;
  young_lines = 0;
  cand_val = 2 ^ 20;
  cand_idx = 0;
}

-- The first half of `update`: the line becomes young, and is counted if it was old.
unfoldable pub touch : Nru → ℕ → Nru
touch r id = record r {
  young_lines = (r.young_lines + (2 ^ 32 + 1 - r.array id / 2)) % 2 ^ 32;
  array = update r.array id (bit_or (r.array id) 2);
}

-- The second half: with half of the lines young, all of them age.
unfoldable pub age_lines : Nru → Nru
age_lines r =
    if leb (r.num_lines / 2) r.young_lines
    then record r {
      array = λ i. if ltb i r.num_lines then r.array i / 2 else r.array i;
      young_lines = 0;
    }
    else r

-- `update`.
unfoldable pub use_line : Nru → ℕ → Nru
use_line r id = age_lines (touch r id)

-- The write at index `i` of the candidates, which has no test, and the index behind it.
unfoldable pub store_candidate : Nru → ℕ → ℕ → Outcome Nru
store_candidate r i id =
    if ltb i r.num_cands
    then ok (record r { cand_array = update r.cand_array i id; cand_idx = (i + 1) % 2 ^ 32 })
    else stop undefined

-- `recordCandidate`.
unfoldable pub record_candidate : Nru → ℕ → Outcome Nru
record_candidate r id =
    if ltb (r.array id) r.cand_val
    then store_candidate (record r { cand_val = r.array id }) 0 id
    else if r.array id == r.cand_val
    then store_candidate r r.cand_idx id
    else ok r

-- The loop of `rank`.
unfoldable pub record_all : Nru → List ℕ → Outcome Nru
record_all r [] = ok r
record_all r (c ∷ cs) = do s ← record_candidate r c; record_all s cs

-- `getBestCandidate`.
unfoldable pub get_best_candidate : Nru → Outcome ℕ
get_best_candidate r = check (ltb 0 r.cand_idx) >> ok (r.cand_array (r.young_lines % r.cand_idx))

-- `rank`; this policy does nothing at the start of a replacement.
unfoldable pub rank : Nru → List ℕ → Outcome (ℕ × Nru)
rank r cands = do s ← record_all r cands; best ← get_best_candidate s; ok (best, s)

-- `replaced`.
unfoldable pub replaced : Nru → ℕ → Nru
replaced r id = record r { cand_val = 2 ^ 20; cand_idx = 0; array = update r.array id 0 }

-- The policy as a cache array uses it.
unfoldable pub policy : ReplPolicy Nru
policy = record {
  update = use_line;
  replaced = replaced;
  rank_cands = λ lines r cands. rank r cands;
}
