-- ===== src/VirtualChannel/Accepts.antt =====
-- Whole packets are accepted, and wait in the order of their arrival.
use bzsim.Base.{
  ℕ, ◌+◌, ◌^◌, ◌<◌, ◌≡◌, ◌⊎◌, refl, sym, subst, ap, ◌∙◌, ℤ, pos, negsuc, is_negative, true, false,
  inl, inr, List, [], ◌∷◌, ◌++◌, ok, ◌>>=◌, arith,
}
use mathlib.Core.List.{append_assoc, append-nil}
use bzsim.Flit.{Flit}
use bzsim.VirtualChannel.{Vc, expect, stamp, update_priority, add_flit}
use bzsim.VirtualChannel.Packets.{
  Packets, no_packet, packet, AreSmall, Completes, add_all, to_int-small, update_priority-pri,
}

begun : {fs : List Flit} → Packets fs → (fs ≡ []) ⊎ ((pid : ℕ) × Completes (pos pid) fs)
begun no_packet = inl refl
begun (packet body last {rest} b t r) = inr (last.pid, (body, last, rest, refl, refl, b, t, r))

-- One flit of a packet that has begun: its last, or one more of its body.
next_flit :
    (p : ℕ) (f : Flit) (fs : List Flit)
    → Completes (pos p) (f ∷ fs)
    → (f.pid ≡ p) × (((f.tail ≡ true) × Packets fs) ⊎ ((f.tail ≡ false) × Completes (pos p) fs))
next_flit p f fs ([], last, rest, eq, id, b, t, r) =
    let same : f ≡ last = cc in
    let left : fs ≡ rest = cc in
    (
      ap (λ (x : Flit). x.pid) same ∙ id,
      inl (ap (λ (x : Flit). x.tail) same ∙ t, subst Packets (sym left) r),
    )
next_flit p f fs (g ∷ body, last, rest, eq, id, (gid, gt, b), t, r) =
    let same : f ≡ g = cc in
    let left : fs ≡ body ++ last ∷ rest = cc in
    (
      ap (λ (x : Flit). x.pid) same ∙ gid ∙ id,
      inr (ap (λ (x : Flit). x.tail) same ∙ gt, (body, last, rest, left, id, b, t, r)),
    )

expect-next :
    (p : ℤ) (f : Flit) (fs : List Flit)
    → f.pid < 2 ^ 31
    → Completes p (f ∷ fs)
    → (q : ℤ) × (expect p f ≡ ok q) × Completes q fs
unfolding expect
expect-next (pos p) f fs small c =
    let (same, more) = next_flit p f fs c in
    elim more [
      | inl (t, r) ↦ (negsuc 0, ground (arith, same, t), r)
      | inr (t, c') ↦ (pos p, ground (arith, same, t), c')
    ]
expect-next (negsuc k) f fs small c = elim (begun c) [
  | inl none ↦ absurd cc
  | inr (p, c') ↦
      let (same, more) = next_flit p f fs c' in
      elim more [
        | inl (t, r) ↦ (negsuc k, ground (arith, t), r)
        | inr (t, c'') ↦ (
          pos f.pid,
          ground (arith, t, to_int-small f.pid small),
          subst (λ n. Completes (pos n) fs) (sym same) c'',
        )
      ]
]

-- No packet has begun when the last one is complete.
at_end : (p : ℤ) → Completes p [] → is_negative p ≡ true
at_end (negsuc k) c = refl
at_end (pos p) ([], last, rest, eq, _, _, _, _) = absurd cc
at_end (pos p) (f ∷ body, last, rest, eq, _, _, _, _) = absurd cc

pub add_flit-ok :
    (v : Vc) (now : ℕ) (f : Flit) (q : ℤ)
    → expect v.expected_pid f ≡ ok q
    → stamp v.pri_type now f ≡ ok f
    → (w : Vc) × (add_flit v now f ≡ ok w)
      × (w.expected_pid ≡ q)
      × (w.buffer ≡ v.buffer ++ f ∷ [])
      × (w.pri_type ≡ v.pri_type)
unfolding add_flit
add_flit-ok v now f q e s =
    let u : Vc = record v { expected_pid = q; buffer = v.buffer ++ f ∷ [] } in
    let p : update_priority u ≡ record u { pri = (update_priority u).pri } =
      update_priority-pri u in
    (
      update_priority u,
      rw (e, ◌>>=◌, s) refl,
      ap (λ (x : Vc). x.expected_pid) p,
      ap (λ (x : Vc). x.buffer) p,
      ap (λ (x : Vc). x.pri_type) p,
    )

add_all-ok :
    (fs : List Flit) (v : Vc) (now : ℕ → ℕ) (k : ℕ)
    → Completes v.expected_pid fs
    → AreSmall fs
    → ((n : ℕ) (f : Flit) → stamp v.pri_type n f ≡ ok f)
    → (w : Vc) × (add_all v now k fs ≡ ok w)
      × (is_negative w.expected_pid ≡ true)
      × (w.buffer ≡ v.buffer ++ fs)
add_all-ok [] v now k c s t = (v, refl, at_end v.expected_pid c, sym (append-nil v.buffer))
add_all-ok (f ∷ fs) v now k c s t =
    let (q, e, c') = expect-next v.expected_pid f fs s.0 c in
    let (u, e', x, b, p) = add_flit-ok v (now k) f q e (t (now k) f) in
    let (w, e'', h, b') =
      add_all-ok fs u now (k + 1) (subst (λ z. Completes z fs) (sym x) c') s.1
        (λ n g. rw p (t n g)) in
    (w, rw (e', ◌>>=◌) e'', h, b' ∙ ap (λ l. l ++ fs) b ∙ append_assoc v.buffer (f ∷ []) fs)

-- Between packets, a virtual channel accepts every sequence of whole packets whose IDs fit an
-- `int`, is between packets again, and holds the flits in their order, behind those that it held.
-- The priority type is one that does not store a priority in the flits.
pub Packets-add_all :
    (fs : List Flit) (v : Vc) (now : ℕ → ℕ)
    → Packets fs
    → AreSmall fs
    → is_negative v.expected_pid ≡ true
    → ((n : ℕ) (f : Flit) → stamp v.pri_type n f ≡ ok f)
    → (w : Vc) × (add_all v now 0 fs ≡ ok w)
      × (is_negative w.expected_pid ≡ true)
      × (w.buffer ≡ v.buffer ++ fs)
Packets-add_all fs v now p s h t = add_all-ok fs v now 0 (between v.expected_pid h) s t
  where
    between : (z : ℤ) → is_negative z ≡ true → Completes z fs
    between (negsuc k) e = p
    between (pos n) e = absurd cc
