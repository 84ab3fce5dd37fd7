-- ===== src/VirtualChannel/Packets.antt =====
-- Which sequences of flits a virtual channel accepts: whole packets, one after the other.
use bzsim.Base.{
  ℕ, ◌+◌, ◌^◌, ◌<◌, ◌≡◌, refl, sym, subst, ap, ◌∙◌, ℤ, pos, negsuc, is_negative, to_int, Bool, true,
  false, if◌then◌else◌, inl, inr, Bool-cases, List, [], ◌∷◌, ◌++◌, Outcome, ok, stop, ◌>>=◌, arith,
  >>=-eq-ok,
}
use bzsim.Flit.{Flit}
use bzsim.VirtualChannel.{Vc, expect, stamp, update_from, update_priority, add_flit}

-- Every flit of a list belongs to packet `pid` and is not its last.
abbrev pub IsBody : ℕ → List Flit → Type 0
IsBody pid [] = Unit
IsBody pid (f ∷ fs) = (f.pid ≡ pid) × (f.tail ≡ false) × IsBody pid fs

-- A sequence of packets: flits of one packet ID, the last and no other a tail.
pub data Packets : List Flit → Type 0 where
  no_packet : Packets []
  packet :
      (body : List Flit) (last : Flit) {rest : List Flit}
      → IsBody last.pid body
      → last.tail ≡ true
      → Packets rest
      → Packets (body ++ last ∷ rest)

-- The packet IDs fit the `int` that `VC` keeps of them.
abbrev pub AreSmall : List Flit → Type 0
AreSmall [] = Unit
AreSmall (f ∷ fs) = (f.pid < 2 ^ 31) × AreSmall fs

-- Flits that arrive one after the other, each with the time.
abbrev pub add_all : Vc → (ℕ → ℕ) → ℕ → List Flit → Outcome Vc
add_all v now k [] = ok v
add_all v now k (f ∷ fs) = add_flit v (now k) f >>= λ w. add_all w now (k + 1) fs

pub to_int-small : (n : ℕ) → n < 2 ^ 31 → to_int n ≡ pos n
unfolding to_int
to_int-small n h = ground arith

-- `UpdatePriority` changes no other field.
update_from-pri :
    (v : Vc) (queue : List Flit)
    → update_from v queue ≡ record v { pri = (update_from v queue).pri }
unfolding update_from
update_from-pri v [] = refl
update_from-pri v (f ∷ fs) = refl

pub update_priority-pri : (v : Vc) → update_priority v ≡ record v { pri = (update_priority v).pri }
unfolding update_priority
update_priority-pri v = update_from-pri v v.buffer

-- What `AddFlit` does to the expected packet.
pub add_flit-expect :
    (v w : Vc) (now : ℕ) (f : Flit)
    → add_flit v now f ≡ ok w
    → expect v.expected_pid f ≡ ok w.expected_pid
unfolding add_flit
add_flit-expect v w now f e =
    let (p, h, e') = >>=-eq-ok (expect v.expected_pid f) _ e in
    let (g, h', e'') = >>=-eq-ok (stamp v.pri_type now f) _ e' in
    let u : Vc = record v { expected_pid = p; buffer = v.buffer ++ g ∷ [] } in
    h
    ∙ ap ok (
        sym (ap (λ (x : Vc). x.expected_pid) (update_priority-pri u))
        ∙ ap (λ o. of_ok w.expected_pid o) e'')
  where
    of_ok : ℤ → Outcome Vc → ℤ
    of_ok z (ok x) = x.expected_pid
    of_ok z (stop b) = z

-- The flits that complete what is expected: first the rest of the packet that has begun.
abbrev pub Completes : ℤ → List Flit → Type 0
Completes (negsuc k) fs = Packets fs
Completes (pos pid) fs =
    (body : List Flit) × (last : Flit) × (rest : List Flit) × (fs ≡ body ++ last ∷ rest)
    × (last.pid ≡ pid)
    × IsBody last.pid body
    × (last.tail ≡ true)
    × Packets rest

expect-body :
    (p : ℕ) (q : ℤ) (f : Flit)
    → expect (pos p) f ≡ ok q
    → (f.pid ≡ p) × (q ≡ (if f.tail then negsuc 0 else pos p))
unfolding expect
expect-body p q f e = ground arith

expect-head :
    (k : ℕ) (q : ℤ) (f : Flit)
    → f.pid < 2 ^ 31
    → expect (negsuc k) f ≡ ok q
    → q ≡ (if f.tail then negsuc k else pos f.pid)
unfolding expect
expect-head k q f small e = ground (arith, to_int-small f.pid small)

expect-Completes :
    (p q : ℤ) (f : Flit) (fs : List Flit)
    → f.pid < 2 ^ 31
    → expect p f ≡ ok q
    → Completes q fs
    → Completes p (f ∷ fs)
expect-Completes (negsuc k) q f fs small e c = elim (Bool-cases f.tail) [
  | inl t ↦
      let e' : q ≡ negsuc k = expect-head k q f small e ∙ rw t refl in
      packet [] f tt t (subst (λ z. Completes z fs) e' c)
  | inr t ↦
      let e' : q ≡ pos f.pid = expect-head k q f small e ∙ rw t refl in
      let (body, last, rest, eq, id, b, t', r) = subst (λ z. Completes z fs) e' c in
      subst Packets (sym (ap (◌∷◌ f) eq)) (packet (f ∷ body) last (sym id, t, b) t' r)
]
expect-Completes (pos p) q f fs small e c =
    let (same, next) = expect-body p q f e in
    elim (Bool-cases f.tail) [
      | inl t ↦
          let e' : q ≡ negsuc 0 = next ∙ rw t refl in
          ([], f, fs, refl, same, tt, t, subst (λ z. Completes z fs) e' c)
      | inr t ↦
          let e' : q ≡ pos p = next ∙ rw t refl in
          let (body, last, rest, eq, id, b, t', r) = subst (λ z. Completes z fs) e' c in
          (f ∷ body, last, rest, ap (◌∷◌ f) eq, id, (same ∙ sym id, t, b), t', r)
    ]

nothing-Completes : (p : ℤ) → is_negative p ≡ true → Completes p []
nothing-Completes (negsuc k) h = no_packet
nothing-Completes (pos n) h = absurd (cc)

add_all-Completes :
    (fs : List Flit) (v w : Vc) (now : ℕ → ℕ) (k : ℕ)
    → add_all v now k fs ≡ ok w
    → AreSmall fs
    → is_negative w.expected_pid ≡ true
    → Completes v.expected_pid fs
add_all-Completes [] v w now k e s h = nothing-Completes v.expected_pid (ap (λ o. sign o) e ∙ h)
  where
    sign : Outcome Vc → Bool
    sign (ok x) = is_negative x.expected_pid
    sign (stop b) = true
add_all-Completes (f ∷ fs) v w now k e s h =
    let (u, e', e'') = >>=-eq-ok (add_flit v (now k) f) _ e in
    expect-Completes v.expected_pid u.expected_pid f fs s.0 (add_flit-expect v u (now k) f e')
      (add_all-Completes fs u w now (k + 1) e'' s.1 h)

-- Flits that a virtual channel accepts between packets, and after which it is again between
-- packets, are whole packets one after the other, where their IDs fit an `int`.
pub add_all-Packets :
    (fs : List Flit) (v w : Vc) (now : ℕ → ℕ)
    → add_all v now 0 fs ≡ ok w
    → AreSmall fs
    → is_negative v.expected_pid ≡ true
    → is_negative w.expected_pid ≡ true
    → Packets fs
add_all-Packets fs v w now e s hv hw =
    between v.expected_pid hv (add_all-Completes fs v w now 0 e s hw)
  where
    between : (p : ℤ) → is_negative p ≡ true → Completes p fs → Packets fs
    between (negsuc k) h c = c
    between (pos n) h c = absurd cc
