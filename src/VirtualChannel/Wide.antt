-- ===== src/VirtualChannel/Wide.antt =====
-- What 64-bit packet IDs and times do in the `int`s of `VC`.
use bzsim.Base.{
  ◌<ℤ◌, >>=-eq-ok, ℕ, ◌-◌, ◌%◌, ◌^◌, ◌≤◌, ◌<◌, ◌≡◌, ◌≢◌, refl, ℤ, pos, negsuc, is_negative, to_int,
  true, false, [], ◌∷◌, ok, stop, error, assertion, ◌>>=◌, arith,
}
use bzsim.Flit.{Flit}
use bzsim.VirtualChannel.{Vc, local_age_based, expect, stamp, age, add_flit}
use bzsim.VirtualChannel.Packets.{add_all}
use bzsim.VirtualChannel.Accepts.{add_flit-ok}

to_int-wide : (n : ℕ) → n % 2 ^ 32 < 2 ^ 31 → to_int n ≡ pos (n % 2 ^ 32)
unfolding to_int
to_int-wide n h = ground arith

expect-wide :
    (p : ℤ) (f : Flit)
    → is_negative p ≡ true
    → f.tail ≡ false
    → f.pid % 2 ^ 32 < 2 ^ 31
    → expect p f ≡ ok (pos (f.pid % 2 ^ 32))
unfolding expect
expect-wide (negsuc k) f h t small = ground (arith, t, to_int-wide f.pid small)
expect-wide (pos n) f h t small = absurd cc

expect_other : (p : ℕ) (f : Flit) → f.pid ≢ p → expect (pos p) f ≡ stop error
unfolding expect
expect_other p f ne = ground arith

add_flit-error :
    (v : Vc) (now : ℕ) (f : Flit)
    → expect v.expected_pid f ≡ stop error
    → add_flit v now f ≡ stop error
unfolding add_flit
add_flit-error v now f e = rw (e, ◌>>=◌) refl

-- Of a packet whose ID does not fit in 32 bits, and whose low 32 bits are not negative as an `int`,
-- a virtual channel that is between packets refuses the second flit, as one of another packet.
-- The priority type is one that does not change the first flit.
pub add_all-wide :
    (v : Vc) (now : ℕ → ℕ) (f g : Flit)
    → is_negative v.expected_pid ≡ true
    → stamp v.pri_type (now 0) f ≡ ok f
    → f.tail ≡ false
    → g.pid ≡ f.pid
    → 2 ^ 32 ≤ f.pid
    → f.pid % 2 ^ 32 < 2 ^ 31
    → add_all v now 0 (f ∷ g ∷ []) ≡ stop error
add_all-wide v now f g h s t same wide small =
    let (w, e, x, _, _) =
      add_flit-ok v (now 0) f (pos (f.pid % 2 ^ 32)) (expect-wide v.expected_pid f h t small) s in
    let refused : add_flit w (now 1) g ≡ stop error =
      add_flit-error w (now 1) g (rw x (expect_other _ g (λ e. omega arith))) in
    rw (e, ◌>>=◌) (rw refused refl)

-- By local age, a flit that arrives earlier gets the higher priority, as long as the times fit an
-- `int`.
pub stamp_earlier :
    (now later : ℕ) (f g : Flit)
    → now < later
    → later < 2 ^ 31
    → (f' : Flit) × (g' : Flit) × (stamp local_age_based now f ≡ ok f')
      × (stamp local_age_based later g ≡ ok g')
      × (g'.pri <ℤ f'.pri)
unfolding stamp age to_int
stamp_earlier now later f g h k = (
  record f { pri = pos (2 ^ 31 - 1 - now) },
  record g { pri = pos (2 ^ 31 - 1 - later) },
  ground arith,
  ground arith,
  ground arith,
)

stamp_expired :
    (now : ℕ) (f : Flit)
    → 2 ^ 31 ≤ now
    → now < 2 ^ 32
    → stamp local_age_based now f ≡ stop assertion
unfolding stamp age to_int
stamp_expired now f h k = ground arith

-- By local age, no flit can be added from time 2 ^ 31 on (shown up to 2 ^ 32): the assertion on its
-- priority fails, if the packet ID is not an error already.
pub add_flit_expired :
    (v w : Vc) (now : ℕ) (f : Flit)
    → v.pri_type ≡ local_age_based
    → 2 ^ 31 ≤ now
    → now < 2 ^ 32
    → add_flit v now f ≢ ok w
unfolding add_flit
add_flit_expired v w now f t h k e =
    let (p, _, e') = >>=-eq-ok (expect v.expected_pid f) _ e in
    let (g, s, _) = >>=-eq-ok (stamp v.pri_type now f) _ e' in
    let stopped : stamp v.pri_type now f ≡ stop assertion = rw t (stamp_expired now f h k) in
    absurd cc
