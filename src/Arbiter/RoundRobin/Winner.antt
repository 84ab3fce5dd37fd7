-- ===== src/Arbiter/RoundRobin/Winner.antt =====
-- The result of `Arbitrate`, and the states between rounds.
use bzsim.Base.{
  ℕ, zero, suc, ◌+◌, ◌-◌, ◌≤◌, ◌<◌, ◌⊎◌, ◌↔◌, inl, inr, ◌≡◌, refl, sym, ◌∙◌, subst, ℤ, pos, negsuc,
  false, ok, arith, Option, none, some,
}
use native.Mathlib.Nat.{mod-eq_of_lt, mod-eq-sub-mod}
use native.Mathlib.Decide.{dec_lt}
use bzsim.Arbiter
use bzsim.Arbiter.{Arbiter, int_min}
use bzsim.Arbiter.Clear.{clear-valid, size-clear, num_reqs-clear, best_input-clear}
use bzsim.Arbiter.RoundRobin.{
  RoundRobin, position, note, add_request, arbitrate, clear, update_state,
}
use bzsim.Arbiter.RoundRobin.Grant.{
  IsFirst, BestIs, Inv, requests, requests-zero, add_request-stored, stored,
}

-- A distance without the division.
pub position-cases :
    (i p n : ℕ)
    → i < n
    → p < n
    → ((p ≤ i) × (position (pos i) p n ≡ i - p)) ⊎ ((i < p) × (position (pos i) p n ≡ i + n - p))
unfolding position
position-cases i p n hi hp = elim (dec_lt i p) [
  | yes h ↦ inr (h, mod-eq_of_lt {n = i + n - p} {m = n} (omega arith))
  | no h ↦ inl (
    omega arith,
    omega (
      arith,
      mod-eq-sub-mod {n = i + n - p} {m = n} (omega arith),
      mod-eq_of_lt {n = i + n - p - n} {m = n} (omega arith),
    ),
  )
]

position-injective :
    (i j p n : ℕ) → i < n → j < n → p < n → position (pos i) p n ≡ position (pos j) p n → i ≡ j
position-injective i j p n hi hj hp e =
    ground (arith, position-cases i p n hi hp, position-cases j p n hj hp)

-- At most one input comes first.
pub IsFirst-unique :
    {r : RoundRobin} (w v : ℕ) → r.pointer < r.size → IsFirst r w → IsFirst r v → w ≡ v
IsFirst-unique {r} w v hp f g =
    ground
      (arith, f.first v, g.first w, position-injective w v r.pointer r.size f.within g.within hp)

-- The outcome of `Arbitrate` on the requests of `r`.
abbrev pub Grants : RoundRobin → ℤ → Option (ℤ × ℤ) → Type 0
Grants r (pos w) out = IsFirst r w × (out ≡ some ((r.request w).id, (r.request w).pri))
Grants r (negsuc k) out =
    (k ≡ 0) × (out ≡ none) × ((j : ℕ) → j < r.size → (r.request j).valid ≡ false)

accepted :
    (r : RoundRobin) (input : ℕ) (id pri : ℤ)
    → input < r.size
    → (r.request input).valid ≡ false
    → add_request r input id pri ≡ ok (stored (note r input pri) input id pri)
unfolding add_request Arbiter.add_request note
accepted r input id pri h v = ground arith

-- The arbiter after `Arbitrate`.
abbrev pub chosen : RoundRobin → RoundRobin
chosen r = record r { base = record r.base { selected = r.best_input } }

arbitrate_cases :
    (r : RoundRobin) (best : ℤ)
    → r.best_input ≡ best
    → BestIs r best
    → r.num_reqs ≡ requests r
    → (out : Option (ℤ × ℤ)) × (arbitrate r ≡ ok (chosen r, best, out)) × Grants r best out
unfolding arbitrate Arbiter.arbitrate
arbitrate_cases r (negsuc zero) e b c =
    (none, ground (arith, requests-zero r b.1), (refl, refl, b.1))
arbitrate_cases r (negsuc (suc k)) e b c = absurd (omega (arith, b.0))
arbitrate_cases r (pos w) e b c =
    (some ((r.request w).id, (r.request w).pri), ground (arith, b.0.within), (b.0, refl))

-- `Arbitrate` where `best_input` is the first request, or there is none.
pub arbitrate_lem :
    {r : RoundRobin}
    → Inv r
    → (out : Option (ℤ × ℤ)) × (arbitrate r ≡ ok (chosen r, r.best_input, out))
      × Grants r r.best_input out
arbitrate_lem {r} inv = arbitrate_cases r r.best_input refl inv.best inv.counted

-- `AddRequest` succeeds exactly for an input of the arbiter that has no request yet.
add_request_accepts :
    (r : RoundRobin) (input : ℕ) (id pri : ℤ)
    → ((s : RoundRobin) × (add_request r input id pri ≡ ok s))
      ↔ ((input < r.size) × ((r.request input).valid ≡ false))
add_request_accepts r input id pri = (
  λ p. let (h, v, _) = add_request-stored r input id pri p.1 in (h, v),
  λ p. (stored (note r input pri) input id pri, accepted r input id pri p.0 p.1),
)

-- What holds also between `Arbitrate` and `Clear`.
pub record IsKept (r : RoundRobin) : Type 0 where
  pub pointer_in : r.pointer < r.size
  pub counted : r.num_reqs ≡ requests r

pub Inv-IsKept : {r : RoundRobin} → Inv r → IsKept r
Inv-IsKept inv = record { pointer_in = inv.pointer_in; counted = inv.counted }

pub update_state-IsKept : {r : RoundRobin} → IsKept r → IsKept (update_state r)
unfolding update_state
update_state-IsKept {r} k = go r.selected refl
  where
    go : (w : ℤ) → r.selected ≡ w → IsKept (update_state r)
    go (pos w) e = record { pointer_in = ground arith; counted = ground (arith, k.counted) }
    go (negsuc n) e = ground (arith, k)

-- `Clear` starts the next round: no request is left, and the pointer stays.
pub clear-Inv :
    {r : RoundRobin}
    → IsKept r
    → Inv (clear r) × (requests (clear r) ≡ 0) × ((clear r).pointer ≡ r.pointer)
unfolding clear
clear-Inv {r} k = (
  record {
    pointer_in = omega (arith, k.pointer_in, size-clear a);
    counted = num_reqs-clear a ∙ sym none_left;
    best = subst (BestIs (clear r)) (sym (best_input-clear a)) (refl, all_invalid);
  },
  none_left,
  refl,
)
  where
    a : Arbiter
    a = record r.base { highest_pri = int_min; best_input = negsuc 0 }

    all_invalid : (i : ℕ) → i < (clear r).size → ((clear r).request i).valid ≡ false
    all_invalid i h = clear-valid a k.counted i (omega (arith, size-clear a, h))

    none_left : requests (clear r) ≡ 0
    none_left = requests-zero (clear r) all_invalid
