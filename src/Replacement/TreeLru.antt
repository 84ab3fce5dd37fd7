-- ===== src/Replacement/TreeLru.antt =====
-- zsim/src/repl_policies.h, `TreeLRUReplPolicy`: the candidates are halved until one is left, and
-- the half with the newest line is left out each time.
pub mod Spared
use bzsim.Base.{
  ℕ, zero, suc, ◌+◌, ◌-◌, ◌/◌, ◌%◌, ◌^◌, max, Bool, true, Option, none, some, not, ◌&&◌, ltb, leb,
  ◌==◌, if◌then◌else◌, update, Outcome, ok, stop, ◌>>=◌, ◌>>◌, check, error_if,
}
use bzsim.Base.Fault.{undefined}
use bzsim.Replacement.Lru
use bzsim.Replacement.Lru.{Lru}
use Prim.Native.Nat.{bit_and}

-- The fields; the timestamps are those of `LRUReplPolicy`.
pub record TreeLru : Type 0 where
  pub base : Lru
  pub open base use *
  pub cand_array : ℕ → ℕ
  pub num_cands : ℕ
  pub cand_idx : ℕ

-- The constructor: anything but a power of two candidates is refused, but not 0.
unfoldable pub init : ℕ → ℕ → Outcome TreeLru
init num_lines num_cands = do
  error_if (not (bit_and num_cands (num_cands - 1) == 0))
  ok (record {
    base = Lru.init true num_lines;
    cand_array = λ i. 0;
    num_cands = num_cands;
    cand_idx = 0;
  })

-- `recordCandidate`.
unfoldable pub record_candidate : TreeLru → ℕ → Outcome TreeLru
record_candidate r id =
    if ltb r.cand_idx r.num_cands
    then ok (record r { cand_array = update r.cand_array r.cand_idx id; cand_idx = r.cand_idx + 1 })
    else stop undefined

-- The loops that compute `t1` and `t2`: the newest timestamp of the `n` candidates from `i` on.
unfoldable pub newest : TreeLru → ℕ → ℕ → ℕ
newest r i zero = 0
newest r i (suc n) = max (newest r i n) (r.array (r.cand_array (i + n)))

-- The loop of `getBestCandidate`, with fuel.
unfoldable pub narrow_down : ℕ → TreeLru → ℕ → ℕ → Option ℕ
narrow_down zero r start end = none
narrow_down (suc fuel) r start end =
    let pivot = start + (end - start) / 2 in
    let t1 = newest r start (pivot - start) in
    let t2 = newest r pivot (end - pivot) in
    let rest =
      narrow_down fuel r (if ltb t2 t1 then pivot else start) (if ltb t2 t1 then end else pivot) in
    if ltb 1 (end - start) then rest else some start

-- `getBestCandidate`: a round for each candidate is enough.
unfoldable pub get_best_candidate : TreeLru → Outcome (Option ℕ)
get_best_candidate r = do
  check (r.cand_idx == r.num_cands)
  let best = narrow_down (suc r.num_cands) r 0 r.num_cands
  ok (elim best [ none ↦ none | some i ↦ some (r.cand_array i) ])

-- `replaced`.
unfoldable pub replaced : TreeLru → ℕ → TreeLru
replaced r id = record r { cand_idx = 0; base = record r.base { array = update r.array id 0 } }
