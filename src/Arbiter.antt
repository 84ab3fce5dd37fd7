-- ===== src/Arbiter.antt =====
-- booksim2/src/arbiters/arbiter.{hpp,cpp}: the request vector that every arbiter keeps. An input is
-- an index, so the `0 <= input` of the source holds by its type.
pub mod Clear
pub mod RoundRobin
pub mod Matrix
pub mod Priority
use bzsim.Base.{
  ℕ, zero, suc, ◌+◌, ◌-◌, ◌^◌, ℤ, pos, negsuc, is_negative, Bool, true, false, not, ◌||◌, Option,
  none, some, ltb, ◌==◌, if◌then◌else◌, update, Outcome, ok, stop, undefined, ◌>>=◌, ◌>>◌, check,
}

-- `entry_t`.
pub record Entry : Type 0 where
  pub valid : Bool
  pub id : ℤ
  pub pri : ℤ

-- The fields of `Arbiter`; the names of its module are not kept. -1 in `selected` and `best_input`
-- stands for no input.
pub record Arbiter : Type 0 where
  pub request : ℕ → Entry
  pub size : ℕ
  pub selected : ℤ
  pub highest_pri : ℤ
  pub best_input : ℤ
  pub num_reqs : ℕ

-- `numeric_limits<int>::min()`.
abbrev pub int_min : ℤ
int_min = negsuc (2 ^ 31 - 1)

abbrev pub no_entry : Entry
no_entry = record { valid = false; id = pos 0; pri = pos 0 }

-- The constructor.
unfoldable pub init : ℕ → Arbiter
init size = record {
  request = λ _. no_entry;
  size = size;
  selected = negsuc 0;
  highest_pri = int_min;
  best_input = negsuc 0;
  num_reqs = 0;
}

-- `AddRequest`.
unfoldable pub add_request : Arbiter → ℕ → ℤ → ℤ → Outcome Arbiter
add_request a input id pri = do
  check (ltb input a.size)
  check (not (a.request input).valid)
  ok (record a {
    num_reqs = a.num_reqs + 1;
    request = update a.request input (record { valid = true; id = id; pri = pri });
  })

-- What goes through the pointers `id` and `pri`: nothing for -1.
read_entry : Arbiter → ℤ → Outcome (Option (ℤ × ℤ))
read_entry a (pos w) =
    if ltb w a.size then ok (some ((a.request w).id, (a.request w).pri)) else stop undefined
read_entry a (negsuc zero) = ok none
read_entry a (negsuc (suc k)) = stop undefined

-- `Arbitrate`: the input selected, and what goes through the pointers.
unfoldable pub arbitrate : Arbiter → Outcome (ℤ × Option (ℤ × ℤ))
unfolding read_entry
arbitrate a = do
  out ← read_entry a a.selected
  check (not (is_negative a.selected) || a.num_reqs == 0)
  ok (a.selected, out)

-- The loop of `Clear` over the first `n` entries.
unfoldable pub invalidate : ℕ → (ℕ → Entry) → ℕ → Entry
invalidate zero f = f
invalidate (suc n) f = update (invalidate n f) n (record (f n) { valid = false })

-- `Clear`.
unfoldable pub clear : Arbiter → Arbiter
clear a =
    if ltb 0 a.num_reqs
    then record a { request = invalidate a.size a.request; num_reqs = 0; selected = negsuc 0 }
    else a
