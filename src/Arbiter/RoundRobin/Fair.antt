-- ===== src/Arbiter/RoundRobin/Fair.antt =====
-- No request starves at a round-robin arbiter.
use bzsim.Base.{
  ℕ, suc, ◌+◌, ◌-◌, ◌%◌, ◌≤◌, ◌<◌, ◌≡◌, ◌≢◌, refl, sym, ap, ◌∙◌, negsuc, subst, ℤ, pos, ◌≤ℤ◌,
  Option, true, ok, arith,
}
use native.Mathlib.Nat.{mod-eq_of_lt, mod-eq-sub-mod}
use native.Mathlib.Decide.{dec_lt}
use bzsim.Arbiter.{int_min}
use bzsim.Arbiter.Clear.{size-clear}
use bzsim.Arbiter.RoundRobin.{
  RoundRobin, position, note, add_request, arbitrate, clear, update_state,
}
use bzsim.Arbiter.RoundRobin.Grant.{IsFirst, Inv, add_request-Inv, add_request-stored}
use bzsim.Arbiter.RoundRobin.Winner.{
  IsKept, update_state-IsKept, clear-Inv, arbitrate_lem, chosen, Grants, position-cases,
}

-- Calls of `AddRequest` that are all accepted.
pub data Adds (r : RoundRobin) : RoundRobin → Type 0 where
  done : Adds r r
  more :
      {s t : RoundRobin} (input : ℕ) (id pri : ℤ)
      → Adds r s
      → add_request s input id pri ≡ ok t
      → Adds r t

-- A round that input `i` loses: it asks, no request has a higher priority, and input `w` is granted.
pub record Loses (i : ℕ) (r s : RoundRobin) : Type 0 where
  pub asked : RoundRobin
  pub adds : Adds (clear r) asked
  pub asks : (asked.request i).valid ≡ true
  pub top :
      (j : ℕ)
      → j < asked.size
      → (asked.request j).valid ≡ true
      → (asked.request j).pri ≤ℤ (asked.request i).pri
  pub granted : RoundRobin
  pub w : ℕ
  pub out : Option (ℤ × ℤ)
  pub grants : arbitrate asked ≡ ok (granted, pos w, out)
  pub other : w ≢ i
  pub updated : s ≡ update_state granted

-- `n` such rounds in a row.
pub data LosesInARow (i : ℕ) (r : RoundRobin) : ℕ → RoundRobin → Type 0 where
  none_yet : LosesInARow i r 0 r
  again : {n : ℕ} {s t : RoundRobin} → LosesInARow i r n s → Loses i s t → LosesInARow i r (suc n) t

-- The pointer moves past the winner, so everyone behind the winner comes nearer.
nearer :
    (i w p n : ℕ)
    → i < n
    → w < n
    → p < n
    → w ≢ i
    → position (pos w) p n ≤ position (pos i) p n
    → position (pos i) ((w + 1) % n) n < position (pos i) p n
nearer i w p n hi hw hp ne le = elim (dec_lt (w + 1) n) [
  | yes h ↦ ground (
    arith,
    mod-eq_of_lt h,
    position-cases i p n hi hp,
    position-cases w p n hw hp,
    position-cases i ((w + 1) % n) n hi,
  )
  | no h ↦ ground (
    arith,
    mod-eq-sub-mod {n = w + 1} {m = n} (omega arith),
    mod-eq_of_lt {n = w + 1 - n} {m = n} (omega arith),
    position-cases i p n hi hp,
    position-cases w p n hw hp,
    position-cases i ((w + 1) % n) n hi,
  )
]

record Same (r s : RoundRobin) : Type 0 where
  size : s.size ≡ r.size
  pointer : s.pointer ≡ r.pointer

note-Same : (r : RoundRobin) (input : ℕ) (pri : ℤ) → Same r (note r input pri)
unfolding note
note-Same r input pri = ground arith

add_request-Same :
    (r s : RoundRobin) (input : ℕ) (id pri : ℤ) → add_request r input id pri ≡ ok s → Same r s
add_request-Same r s input id pri h =
    let (_, _, e) = add_request-stored r input id pri h in
    subst (Same r) (sym e)
      (record { size = (note-Same r input pri).size; pointer = (note-Same r input pri).pointer })

Adds-Inv : {r s : RoundRobin} → Inv r → Adds r s → Inv s
Adds-Inv inv done = inv
Adds-Inv inv (more {s} {t} input id pri a h) = add_request-Inv s t input id pri (Adds-Inv inv a) h

Adds-Same : {r s : RoundRobin} → Adds r s → Same r s
Adds-Same done = record { size = refl; pointer = refl }
Adds-Same (more {s} {t} input id pri a h) =
    let b = Adds-Same a in let c = add_request-Same s t input id pri h in omega (arith, b, c)

-- A whole round: after `Clear`, from any state between rounds, and any calls of `AddRequest` that are
-- accepted, `Arbitrate` succeeds. It selects and returns the input whose request comes before all
-- others, by priority and then by the distance from the pointer, with that request's id and priority,
-- or -1 and no id where there is no request.
pub arbitrate-Grants :
    {r s : RoundRobin}
    → IsKept r
    → Adds (clear r) s
    → (w : ℤ) × (out : Option (ℤ × ℤ)) × (arbitrate s
        ≡ ok (record s { base = record s.base { selected = w } }, w, out))
      × Grants s w out
arbitrate-Grants {r} {s} k a =
    let (out, e, g) = arbitrate_lem (Adds-Inv (clear-Inv k).0 a) in (s.best_input, out, e, g)

-- What the round has granted.
Loses-winner :
    {i : ℕ} {r s : RoundRobin}
    → IsKept r
    → (l : Loses i r s)
    → (l.granted ≡ chosen l.asked) × (l.asked.best_input ≡ pos l.w) × IsFirst l.asked l.w
Loses-winner k l = (cc e, is_w, (subst (λ b. Grants l.asked b out) is_w g).0)
  where
    inv : Inv l.asked
    inv = Adds-Inv (clear-Inv k).0 l.adds

    out : Option (ℤ × ℤ)
    out = (arbitrate_lem inv).0

    e : arbitrate l.asked ≡ ok (chosen l.asked, l.asked.best_input, out)
    e = (arbitrate_lem inv).1

    g : Grants l.asked l.asked.best_input out
    g = (arbitrate_lem inv).2

    is_w : l.asked.best_input ≡ pos l.w
    is_w = cc e

update_state-chosen :
    (r : RoundRobin) (w : ℕ)
    → r.best_input ≡ pos w
    → ((update_state (chosen r)).size ≡ r.size)
      × ((update_state (chosen r)).pointer ≡ (w + 1) % r.size)
unfolding update_state
update_state-chosen r w e = ground arith

clear-size : (r : RoundRobin) → (clear r).size ≡ r.size
unfolding clear
clear-size r = size-clear (record r.base { highest_pri = int_min; best_input = negsuc 0 })

Loses-nearer :
    {i : ℕ} {r s : RoundRobin}
    → IsKept r
    → i < r.size
    → Loses i r s
    → IsKept s
      × (s.size ≡ r.size)
      × (position (pos i) s.pointer s.size < position (pos i) r.pointer r.size)
Loses-nearer {i} {r} {s} k h l =
    subst
      (λ t.
        IsKept t
        × (t.size ≡ r.size)
        × (position (pos i) t.pointer t.size < position (pos i) r.pointer r.size))
      (sym updated)
      (
        update_state-IsKept (record { pointer_in = inv.pointer_in; counted = inv.counted }),
        omega (arith, after, same_size),
        rw (after.0, after.1, same_size) closer,
      )
  where
    t : RoundRobin
    t = l.asked

    inv : Inv t
    inv = Adds-Inv (clear-Inv k).0 l.adds

    same : Same (clear r) t
    same = Adds-Same l.adds

    same_size : t.size ≡ r.size
    same_size = omega (arith, same, clear-size r)

    same_pointer : t.pointer ≡ r.pointer
    same_pointer = same.pointer ∙ (clear-Inv k).2

    updated : s ≡ update_state (chosen t)
    updated = l.updated ∙ ap update_state (Loses-winner k l).0

    f : IsFirst t l.w
    f = (Loses-winner k l).2

    after :
        ((update_state (chosen t)).size ≡ t.size)
        × ((update_state (chosen t)).pointer ≡ (l.w + 1) % t.size)
    after = update_state-chosen t l.w (Loses-winner k l).1

    closer : position (pos i) ((l.w + 1) % r.size) r.size < position (pos i) r.pointer r.size
    closer =
        nearer i l.w r.pointer r.size h (omega (arith, f.within, same_size)) k.pointer_in l.other (
          subst (λ n. position (pos l.w) r.pointer n ≤ position (pos i) r.pointer n) same_size
            (subst (λ p. position (pos l.w) p t.size ≤ position (pos i) p t.size) same_pointer
              (ground (
                arith,
                f.first i (omega (arith, same_size)) l.asks,
                l.top l.w f.within f.requested,
              ))))

LosesInARow-nearer :
    {i : ℕ} {r : RoundRobin} {n : ℕ} {s : RoundRobin}
    → IsKept r
    → i < r.size
    → LosesInARow i r n s
    → IsKept s
      × (s.size ≡ r.size)
      × (n + position (pos i) s.pointer s.size ≤ position (pos i) r.pointer r.size)
LosesInARow-nearer k h none_yet = (k, refl, omega arith)
LosesInARow-nearer k h (again a l) =
    let (k', e, b) = LosesInARow-nearer k h a in
    let (k'', e', b') = Loses-nearer k' (omega arith) l in (k'', e' ∙ e, omega arith)

-- An input that asks in every round, and never with a lower priority than the others, is granted
-- before `size` rounds have gone by: it cannot lose that many in a row.
pub no_starvation :
    {i n : ℕ} {r s : RoundRobin} → IsKept r → i < r.size → LosesInARow i r n s → n < r.size
no_starvation {i} {r = r} k h a =
    ground (arith, (LosesInARow-nearer k h a).2, position-cases i r.pointer r.size h k.pointer_in)
