-- ===== src/Coherence/Race.antt =====
-- Invalidations that overtake a request: `CheckForMESIRace` meets only races that it can resolve.
use bzsim.Base.{◌≡◌, refl, sym, ap, subst, Bool, true, false, ok, ◌⊎◌, inl, inr}
use bzsim.Coherence.Permission.{exclusive-valid}
use bzsim.Coherence.{
  MesiState, invalid, shared, exclusive, modified, AccessType, gets, getx, puts, putx, InvType, inv,
  invx, fwd, is_invalid, has_exclusive, is_put,
}
use bzsim.Coherence.Bottom.{process_inval}
use bzsim.Coherence.Bottom.Grants.{CanAsk}
use bzsim.Coherence.Controller.{check_for_mesi_race, resolve_race}

-- The invalidations that a line has followed, one after the other.
pub data Overtaken : MesiState → MesiState → Type 0 where
  still : {state : MesiState} → Overtaken state state
  later :
      {first next last : MesiState} (type : InvType) (writeback : Bool)
      → process_inval first type ≡ ok (next, writeback)
      → Overtaken next last
      → Overtaken first last

-- What invalidations come to.
abbrev Lost : MesiState → MesiState → Type 0
Lost first last =
    (last ≡ first)
    ⊎ ((last ≡ invalid) × (is_invalid first ≡ false))
    ⊎ ((last ≡ shared) × (has_exclusive first ≡ true))

process_inval-Lost :
    (type : InvType) (first next : MesiState) (w : Bool)
    → process_inval first type ≡ ok (next, w)
    → Lost first next
unfolding process_inval
process_inval-Lost inv invalid next w e = cc
process_inval-Lost inv shared next w e = inr (inl (cc, refl))
process_inval-Lost inv exclusive next w e = inr (inl (cc, refl))
process_inval-Lost inv modified next w e = inr (inl (cc, refl))
process_inval-Lost invx invalid next w e = cc
process_inval-Lost invx shared next w e = cc
process_inval-Lost invx exclusive next w e = inr (inr (cc, refl))
process_inval-Lost invx modified next w e = inr (inr (cc, refl))
process_inval-Lost fwd shared next w e = inl cc
process_inval-Lost fwd invalid next w e = cc
process_inval-Lost fwd exclusive next w e = cc
process_inval-Lost fwd modified next w e = cc

Lost-trans : (first next last : MesiState) → Lost first next → Lost next last → Lost first last
Lost-trans first next last (inl e) k = subst (λ x. Lost x last) e k
Lost-trans first next last (inr a) (inl e) = subst (Lost first) (sym e) (inr a)
Lost-trans first next last (inr (inl (e, v))) (inr (inl (f, w))) = inr (inl (f, v))
Lost-trans first next last (inr (inl (e, v))) (inr (inr (f, w))) = let g = ap has_exclusive e in cc
Lost-trans first next last (inr (inr (e, v))) (inr (inl (f, w))) =
    inr (inl (f, exclusive-valid first v))
Lost-trans first next last (inr (inr (e, v))) (inr (inr (f, w))) = inr (inr (f, v))

Overtaken-Lost : (first last : MesiState) → Overtaken first last → Lost first last
Overtaken-Lost first last still = inl refl
Overtaken-Lost first last (later {next = next} type w e rest) =
    Lost-trans first next last (process_inval-Lost type first next w e)
      (Overtaken-Lost next last rest)

-- The request goes on as one that may be made, or it was a writeback that there is no more need of.
abbrev pub Resolved : AccessType → MesiState → Bool × AccessType → Type 0
Resolved type last (true, type') = (is_put type ≡ true) × (last ≡ invalid)
Resolved type last (false, type') = CanAsk type' last × (is_put type' ≡ is_put type)

resolve_none :
    (type : AccessType) (first : MesiState)
    → CanAsk type first
    → (answer : Bool × AccessType) × (check_for_mesi_race type first first ≡ ok answer)
      × Resolved type first answer
unfolding check_for_mesi_race
resolve_none type invalid can = ((false, type), refl, (can, refl))
resolve_none type shared can = ((false, type), refl, (can, refl))
resolve_none type exclusive can = ((false, type), refl, (can, refl))
resolve_none type modified can = ((false, type), refl, (can, refl))

resolve_inv :
    (type : AccessType) (first : MesiState)
    → CanAsk type first
    → is_invalid first ≡ false
    → (answer : Bool × AccessType) × (check_for_mesi_race type invalid first ≡ ok answer)
      × Resolved type invalid answer
unfolding check_for_mesi_race resolve_race
resolve_inv gets first can v = cc
resolve_inv getx invalid can v = cc
resolve_inv getx shared can v = ((false, getx), refl, (refl, refl))
resolve_inv getx exclusive can v = cc
resolve_inv getx modified can v = cc
resolve_inv puts invalid can v = cc
resolve_inv puts shared can v = ((true, puts), refl, (refl, refl))
resolve_inv puts exclusive can v = ((true, puts), refl, (refl, refl))
resolve_inv puts modified can v = ((true, puts), refl, (refl, refl))
resolve_inv putx invalid can v = cc
resolve_inv putx shared can v = cc
resolve_inv putx exclusive can v = ((true, putx), refl, (refl, refl))
resolve_inv putx modified can v = ((true, putx), refl, (refl, refl))

resolve_invx :
    (type : AccessType) (first : MesiState)
    → CanAsk type first
    → has_exclusive first ≡ true
    → (answer : Bool × AccessType) × (check_for_mesi_race type shared first ≡ ok answer)
      × Resolved type shared answer
unfolding check_for_mesi_race resolve_race
resolve_invx getx first can v = cc
resolve_invx gets invalid can v = cc
resolve_invx gets shared can v = cc
resolve_invx gets exclusive can v = cc
resolve_invx gets modified can v = cc
resolve_invx puts invalid can v = cc
resolve_invx puts shared can v = cc
resolve_invx puts exclusive can v = ((false, puts), refl, (refl, refl))
resolve_invx puts modified can v = ((false, puts), refl, (refl, refl))
resolve_invx putx invalid can v = cc
resolve_invx putx shared can v = cc
resolve_invx putx exclusive can v = ((false, puts), refl, (refl, refl))
resolve_invx putx modified can v = ((false, puts), refl, (refl, refl))

-- A request that could be made when it left is resolved, whatever invalidations have come to the
-- child's line since: either it is a writeback of a line that is already invalid, which is skipped,
-- or it goes on as a request that may be made of the line as it is now.
pub check_for_mesi_race-Resolved :
    (type : AccessType) (first last : MesiState)
    → CanAsk type first
    → Overtaken first last
    → (answer : Bool × AccessType) × (check_for_mesi_race type last first ≡ ok answer)
      × Resolved type last answer
check_for_mesi_race-Resolved type first last can way = elim (Overtaken-Lost first last way) [
  | inl e ↦ move (sym e) (resolve_none type first can)
  | inr (inl (e, v)) ↦ move (sym e) (resolve_inv type first can v)
  | inr (inr (e, v)) ↦ move (sym e) (resolve_invx type first can v)
]
  where
    move :
        {a c : MesiState}
        → a ≡ c
        → ((answer : Bool × AccessType) × (check_for_mesi_race type a first ≡ ok answer)
            × Resolved type a answer)
        → (answer : Bool × AccessType) × (check_for_mesi_race type c first ≡ ok answer)
          × Resolved type c answer
    move e =
        subst
          (λ x.
            (answer : Bool × AccessType) × (check_for_mesi_race type x first ≡ ok answer)
            × Resolved type x answer)
          e
