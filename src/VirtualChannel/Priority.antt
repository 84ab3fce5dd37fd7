-- ===== src/VirtualChannel/Priority.antt =====
-- Priority donation: the queue is as urgent as its most urgent flit.
use bzsim.Base.{
  ◌≡◌, ◌⊎◌, refl, sym, subst, ap, ◌∙◌, inl, inr, ℤ, ltb_ℤ, ◌≤ℤ◌, true, false, if◌then◌else◌,
  Bool-cases, List, [], ◌∷◌, arith,
}
use bzsim.Flit.{Flit}
use bzsim.VirtualChannel.{
  Vc, hop_count_based, other, donor, front_priority, update_from, update_priority,
}

-- No flit of the list has a higher priority than `p`.
abbrev pub AreBelow : ℤ → List Flit → Type 0
AreBelow p [] = Unit
AreBelow p (f ∷ fs) = (f.pri ≤ℤ p) × AreBelow p fs

-- Some flit of the list has priority `p`.
abbrev pub IsHeld : ℤ → List Flit → Type 0
IsHeld p [] = ⊥
IsHeld p (f ∷ fs) = (f.pri ≡ p) ⊎ IsHeld p fs

-- No flit of `d ∷ fs` has a higher priority than `p`, and one has it.
abbrev IsHighest : Flit → List Flit → ℤ → Type 0
IsHighest d fs p = AreBelow p (d ∷ fs) × IsHeld p (d ∷ fs)

IsHighest-higher :
    (d f : Flit) (fs : List Flit) (p : ℤ)
    → ltb_ℤ d.pri f.pri ≡ true
    → IsHighest f fs p
    → IsHighest d (f ∷ fs) p
IsHighest-higher d f fs p higher ((h, b), e) = ((ground arith, (h, b)), inr e)

IsHighest-lower :
    (d f : Flit) (fs : List Flit) (p : ℤ)
    → ltb_ℤ d.pri f.pri ≡ false
    → IsHighest d fs p
    → IsHighest d (f ∷ fs) p
IsHighest-lower d f fs p lower ((h, b), inl e) = ((h, (ground arith, b)), inl e)
IsHighest-lower d f fs p lower ((h, b), inr e) = ((h, (ground arith, b)), inr (inr e))

donor-IsHighest : (d : Flit) (fs : List Flit) → IsHighest d fs (donor d fs).pri
unfolding donor
donor-IsHighest d [] = ((ground arith, tt), inl refl)
donor-IsHighest d (f ∷ fs) = elim (Bool-cases (ltb_ℤ d.pri f.pri)) [
  | inl higher ↦
      subst (λ b. IsHighest d (f ∷ fs) (donor (if b then f else d) fs).pri) (sym higher)
        (IsHighest-higher d f fs (donor f fs).pri higher (donor-IsHighest f fs))
  | inr lower ↦
      subst (λ b. IsHighest d (f ∷ fs) (donor (if b then f else d) fs).pri) (sym lower)
        (IsHighest-lower d f fs (donor d fs).pri lower (donor-IsHighest d fs))
]

-- With priority donation, and priorities that come from the flits, `UpdatePriority` gives a queue
-- that is not empty the highest priority of its flits.
pub update_priority-AreBelow :
    (v : Vc) (f : Flit) (rest : List Flit)
    → v.buffer ≡ f ∷ rest
    → v.priority_donation ≡ true
    → ((v.pri_type ≡ hop_count_based) ⊎ (v.pri_type ≡ other))
    → AreBelow (update_priority v).pri (f ∷ rest) × IsHeld (update_priority v).pri (f ∷ rest)
unfolding update_priority update_from front_priority
update_priority-AreBelow v f rest e d t =
    let p : (update_priority v).pri ≡ (donor f rest).pri =
      ap (λ l. (update_from v l).pri) e ∙ given v f rest d t in
    subst (λ z. AreBelow z (f ∷ rest) × IsHeld z (f ∷ rest)) (sym p) (donor-IsHighest f rest)
  where
    given :
        (v : Vc) (f : Flit) (rest : List Flit)
        → v.priority_donation ≡ true
        → ((v.pri_type ≡ hop_count_based) ⊎ (v.pri_type ≡ other))
        → (update_from v (f ∷ rest)).pri ≡ (donor f rest).pri
    given v f rest d (inl t) = rw (t, d) refl
    given v f rest d (inr t) = rw (t, d) refl
