-- ===== src/Buffer/Counts.antt =====
-- The count of an input buffer is the number of flits in its virtual channels.
use bzsim.Base.{
  not, ltb_ℤ, error_if-eq-ok, ℕ, suc, ◌+◌, ◌-◌, ◌<◌, ◌≤◌, ◌≡◌, ◌≢◌, refl, sym, subst, ap, ◌∙◌, pos,
  false, update, length, length-append, [], ◌∷◌, ok, ◌>>=◌, arith, total, total-change, >>=-eq-ok,
}
use bzsim.Flit.{Flit}
use bzsim.VirtualChannel
use bzsim.VirtualChannel.{Vc}
use bzsim.VirtualChannel.Order.{buffer-add_flit, buffer-remove_flit}
use bzsim.Buffer.{Buffer, at, full, add_flit, remove_flit, one_more, one_fewer}

-- The flits in VC `v`.
abbrev pub fill : Buffer → ℕ → ℕ
fill b v = length (b.vc v).buffer

pub record IsCounted (b : Buffer) : Type 0 where
  pub count : b.occupancy ≡ pos (total b.vcs (fill b))
  pub fits : total b.vcs (fill b) ≤ b.size

-- The buffer after a change of one VC to one of `n` flits.
abbrev pub Becomes : Buffer → ℕ → ℕ → Buffer → Type 0
Becomes b v n c =
    (v < b.vcs)
    × (c.vcs ≡ b.vcs)
    × (c.size ≡ b.size)
    × (fill c v ≡ n)
    × ((j : ℕ) → j ≢ v → fill c j ≡ fill b j)

at-within : (b : Buffer) (v : ℕ) {c : Vc} → at b v ≡ ok c → (v < b.vcs) × (c ≡ b.vc v)
unfolding at
at-within b v e = ground arith

added :
    (b c : Buffer) (now v : ℕ) (f : Flit)
    → add_flit b now v f ≡ ok c
    → (v < b.vcs)
      × (full b ≡ false)
      × (d : Vc) × (VirtualChannel.add_flit (b.vc v) now f ≡ ok d)
      × (c ≡ record b { occupancy = one_more b.occupancy; vc = update b.vc v d })
unfolding add_flit
added b c now v f e =
    let (room, e1) = error_if-eq-ok (full b) _ e in
    let (x, a, e2) = >>=-eq-ok (at b v) _ e1 in
    let (d, h, e3) = >>=-eq-ok (VirtualChannel.add_flit x now f) _ e2 in
    let (lt, same) = at-within b v a in
    (lt, room, d, subst (λ y. VirtualChannel.add_flit y now f ≡ ok d) same h, cc)

removed :
    (b c : Buffer) (v : ℕ) (f : Flit)
    → remove_flit b v ≡ ok (c, f)
    → (v < b.vcs)
      × (d : Vc) × (VirtualChannel.remove_flit (b.vc v) ≡ ok (d, f))
      × (c ≡ record b { occupancy = one_fewer b.occupancy; vc = update b.vc v d })
unfolding remove_flit
removed b c v f e =
    let (x, a, e1) = >>=-eq-ok (at b v) _ e in
    let ((d, g), h, e2) = >>=-eq-ok (VirtualChannel.remove_flit x) _ e1 in
    let (lt, same) = at-within b v a in
    let front : g ≡ f = cc in
    (
      lt,
      d,
      subst (λ y. VirtualChannel.remove_flit y ≡ ok (d, f)) same
          (subst (λ y. VirtualChannel.remove_flit x ≡ ok (d, y)) front h),
      cc,
    )

-- With room, an input buffer refuses only what the virtual channel refuses.
pub add_flit-ok :
    (b : Buffer) (now v : ℕ) (f : Flit) {d : Vc}
    → full b ≡ false
    → v < b.vcs
    → VirtualChannel.add_flit (b.vc v) now f ≡ ok d
    → add_flit b now v f ≡ ok (record b { occupancy = one_more b.occupancy; vc = update b.vc v d })
unfolding add_flit at
add_flit-ok b now v f room h e = rw (room, at-ok b v h, ◌>>=◌, e) refl
  where
    at-ok : (b : Buffer) (v : ℕ) → v < b.vcs → at b v ≡ ok (b.vc v)
    at-ok b v h = ground arith

-- `Full` says whether there is room.
full-fits : (b : Buffer) (n : ℕ) → b.occupancy ≡ pos n → full b ≡ false → n < b.size
unfolding full
full-fits b n e h =
    let h' : not (ltb_ℤ (pos n) (pos b.size)) ≡ false =
      subst (λ z. not (ltb_ℤ z (pos b.size)) ≡ false) e h in
    ground arith

pub not_full : (b : Buffer) → IsCounted b → total b.vcs (fill b) < b.size → full b ≡ false
unfolding full
not_full b i h = rw i.count (ground (arith, h))

-- A flit that is added is counted once, in its virtual channel.
pub add_flit-IsCounted :
    (b c : Buffer) (now v : ℕ) (f : Flit)
    → IsCounted b
    → add_flit b now v f ≡ ok c
    → IsCounted c × Becomes b v (fill b v + 1) c
add_flit-IsCounted b c now v f i e =
    let (lt, room, d, h, same) = added b c now v f e in
    let (g, _, q) = buffer-add_flit (b.vc v) d now f h in
    let n : length d.buffer ≡ fill b v + 1 = ap length q ∙ length-append (b.vc v).buffer (g ∷ []) in
    let b' : Buffer = record b { occupancy = one_more b.occupancy; vc = update b.vc v d } in
    let sum : total b.vcs (fill b') ≡ total b.vcs (fill b) + 1 =
      ground (arith, n, total-change b.vcs (fill b) (fill b') v lt (λ j ne. ground arith)) in
    subst (λ x. IsCounted x × Becomes b v (fill b v + 1) x) (sym same)
      (
        record {
          count = ap one_more i.count ∙ ap pos (omega (arith, sum));
          fits = omega (arith, sum, full-fits b (total b.vcs (fill b)) i.count room);
        },
        (lt, refl, refl, ground (arith, n), λ j ne. ground arith),
      )

-- A flit that is removed is no longer counted.
pub remove_flit-IsCounted :
    (b c : Buffer) (v : ℕ) (f : Flit)
    → IsCounted b
    → remove_flit b v ≡ ok (c, f)
    → IsCounted c × (0 < fill b v) × Becomes b v (fill b v - 1) c
remove_flit-IsCounted b c v f i e =
    let (lt, d, h, same) = removed b c v f e in
    let n : fill b v ≡ length d.buffer + 1 =
      ap length (buffer-remove_flit (b.vc v) d f h) ∙ omega arith in
    let b' : Buffer = record b { occupancy = one_fewer b.occupancy; vc = update b.vc v d } in
    let sum : total b.vcs (fill b) ≡ suc (total b.vcs (fill b')) =
      ground (arith, n, total-change b.vcs (fill b) (fill b') v lt (λ j ne. ground arith)) in
    subst (λ x. IsCounted x × (0 < fill b v) × Becomes b v (fill b v - 1) x) (sym same)
      (
        record { count = ap one_fewer (i.count ∙ ap pos sum); fits = omega (arith, sum, i.fits) },
        omega (arith, n),
        (lt, refl, refl, ground (arith, n), λ j ne. ground arith),
      )
