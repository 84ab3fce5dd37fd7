-- ===== src/Replacement.antt =====
-- zsim/src/repl_policies.h: the replacement policies, which say which line of a cache is evicted. A
-- cache array uses a policy through the interface `ReplPolicy`; what the policy reads of the coherence
-- controller is an argument. An array over the lines is a family: the ids that reach it are those
-- of the cache array's candidates, which are below the number of lines.
pub mod Lru
pub mod Nru
pub mod TreeLru
mod Tests
use bzsim.Base.{ℕ, suc, Bool, List, [], ◌∷◌, ◌≡◌, ◌⊎◌, Outcome, ok, length, ◌≤◌, ◌<◌, ◌^◌}

-- What a policy asks the coherence controller of a line: its sharers, and whether it is valid.
pub record Lines : Type 0 where
  pub num_sharers : ℕ → ℕ
  pub is_valid : ℕ → Bool

-- `ReplPolicy`: `update` at each use of a line, `rank_cands` to choose among the candidates, and
-- `replaced` when the chosen line has been replaced.
pub record ReplPolicy (S : Type 0) : Type 0 where
  pub update : S → ℕ → S
  pub replaced : S → ℕ → S
  pub rank_cands : Lines → S → List ℕ → Outcome (ℕ × S)

-- `c` is one of the candidates.
abbrev pub IsCand : ℕ → List ℕ → Type 0
IsCand c [] = ⊥
IsCand c (x ∷ xs) = (x ≡ c) ⊎ IsCand c xs

-- What a cache array relies on that ranks at most `limit` candidates. `Ready` is what a policy is in
-- between replacements, and `Busy` between the choice of a line and its replacement.
pub record IsPolicy {S : Type 0} (p : ReplPolicy S) (limit : ℕ) (Ready Busy : S → Type 0)
    : Type 0 where
  pub update-Ready : (s : S) (id : ℕ) → Ready s → Ready (p.update s id)
  pub update-Busy : (s : S) (id : ℕ) → Busy s → Busy (p.update s id)
  pub replaced-Ready : (s : S) (id : ℕ) → Busy s → Ready (p.replaced s id)
  pub rank-Busy :
      (lines : Lines) (s : S) (c : ℕ) (cs : List ℕ)
      → length cs < 2 ^ 31
      → suc (length cs) ≤ limit
      → Ready s
      → (w : ℕ) × (t : S) × (p.rank_cands lines s (c ∷ cs) ≡ ok (w, t)) × IsCand w (c ∷ cs) × Busy t
