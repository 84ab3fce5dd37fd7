-- ===== src/CacheArray.antt =====
-- zsim/src/cache_arrays.{h,cpp}: the set-associative array of a cache, which translates the address
-- of a line to its id. The hash function of the cache is a parameter.
pub mod Lookup
pub mod Insert
mod Tests
use Prim.Native.Nat.{bit_and}
use bzsim.Base.{
  ℕ, zero, suc, ◌+◌, ◌-◌, ◌*◌, ◌/◌, ◌%◌, ◌^◌, ℤ, negsuc, to_int, Option, none, some, Bool, not,
  ◌&&◌, List, [], ◌∷◌, ◌==◌, if◌then◌else◌, update, Outcome, ok, stop, ◌>>=◌, ◌>>◌, check,
}
use bzsim.Base.Fault.{undefined}
use bzsim.Replacement.{Lines, ReplPolicy}

-- `SetAssocArray`: the address at each line, 0 where there is none, and the policy's state.
pub record SetAssoc (S : Type 0) : Type 0 where
  pub array : ℕ → ℕ
  pub rp : S
  pub num_lines : ℕ
  pub num_sets : ℕ
  pub assoc : ℕ
  pub set_mask : ℕ

-- `isPow2` of zsim/src/bithacks.h.
unfoldable pub is_pow2 : ℕ → Bool
is_pow2 val = not (val == 0) && (bit_and val (val - 1) == 0)

-- The constructor; a division by 0 is undefined.
unfoldable pub init : {S : Type 0} → ℕ → ℕ → S → Outcome (SetAssoc S)
init num_lines zero rp = stop undefined
init num_lines (suc n) rp = do
  let sets = num_lines / suc n
  check (is_pow2 sets)
  ok (record {
    array = λ id. 0;
    rp = rp;
    num_lines = num_lines;
    num_sets = sets;
    assoc = suc n;
    set_mask = sets - 1;
  })

-- The candidates from `b` on, as `SetAssocCands` lists them.
unfoldable pub set_assoc_cands : ℕ → ℕ → List ℕ
set_assoc_cands zero b = []
set_assoc_cands (suc n) b = b ∷ set_assoc_cands n (suc b)

-- The loop of `lookup` over the `n` lines from `id` on.
unfoldable pub scan : ℕ → (ℕ → ℕ) → ℕ → ℕ → Option ℕ
scan zero array id line_addr = none
scan (suc n) array id line_addr =
    let rest = scan n array (suc id) line_addr in if array id == line_addr then some id else rest

module _ {S : Type 0} (hash : ℕ → ℕ → ℕ) (p : ReplPolicy S) where
  -- The first line of the address's set, in 32 bits.
  unfoldable pub first : SetAssoc S → ℕ → ℕ
  first s line_addr = bit_and (hash 0 line_addr) s.set_mask * s.assoc % 2 ^ 32

  -- Where `lookup` finds an address.
  unfoldable pub line_id : SetAssoc S → ℕ → Option ℕ
  line_id s line_addr = scan s.assoc s.array (first s line_addr) line_addr

  -- `lookup`: the id as an `int32_t`, -1 where no line has the address.
  unfoldable pub lookup : SetAssoc S → ℕ → Bool → SetAssoc S × ℤ
  lookup s line_addr update_replacement = elim (line_id s line_addr) [
    | some id ↦ (if update_replacement then record s { rp = p.update s.rp id } else s, to_int id)
    | none ↦ (s, negsuc 0)
  ]

  -- `preinsert`: the line to replace, and the address that it holds.
  unfoldable pub preinsert : Lines → SetAssoc S → ℕ → Outcome (SetAssoc S × ℕ × ℕ)
  preinsert cc s line_addr = do
    (candidate, rp) ← p.rank_cands cc s.rp (set_assoc_cands s.assoc (first s line_addr))
    ok (record s { rp = rp }, candidate, s.array candidate)

  -- `postinsert`.
  unfoldable pub postinsert : SetAssoc S → ℕ → ℕ → SetAssoc S
  postinsert s line_addr candidate = record s {
    rp = p.update (p.replaced s.rp candidate) candidate;
    array = update s.array candidate line_addr;
  }
