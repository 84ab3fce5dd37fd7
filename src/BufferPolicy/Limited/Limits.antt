-- ===== src/BufferPolicy/Limited/Limits.antt =====
-- The limit that the dynamic policies set is a share of the buffer.
use bzsim.Base.{
  ℕ, zero, suc, ◌+◌, ◌-◌, ◌*◌, ◌/◌, ◌≤◌, ◌<◌, ◌≡◌, inl, inr, refl, ◌==◌, arith, Bool-cases, ok,
  true, ◌⊎◌, ◌&&◌, ltb, if◌then◌else◌, subst, >>=-eq-ok,
}
use bzsim.Flit.{Flit}
use bzsim.BufferPolicy.Limited.{
  Limited, take_buffer, sending_flit, take_buffer_dynamic, take_buffer_shifting,
  sending_flit_dynamic, sending_flit_shifting, halve, divide, shift, check_limit,
}

-- The loop reaches 0: `i` rounds are enough, and more change nothing.
pub halve_enough : (fuel i held : ℕ) → i ≤ fuel → halve (suc fuel) i held ≡ halve fuel i held
unfolding halve
halve_enough zero i held h = ground arith
halve_enough (suc fuel) i held h = ground (arith, halve_enough fuel (i / 2) (held / 2))

mul_mono : (a b r : ℕ) → a ≤ b → a * r ≤ b * r
mul_mono a b r h = grind arith

share_step : (i r h : ℕ) → (i / 2 + 1) * r ≤ h / 2 → (i + 1) * r ≤ h
share_step i r h p = omega (arith, p, mul_mono (i + 1) (2 * (i / 2 + 1)) r (omega arith))

halve_share : (fuel i held : ℕ) → i ≤ fuel → (i + 1) * halve fuel i held ≤ held
unfolding halve
halve_share zero i held h = ground arith
halve_share (suc fuel) i held h = elim (Bool-cases (i == 0)) [
  | inl z ↦ rw z (ground arith)
  | inr n ↦ rw n (share_step i _ held (halve_share fuel (i / 2) (held / 2) (ground arith)))
]

halve_pos : (fuel i held : ℕ) → i ≤ fuel → 0 < held → 2 * i ≤ held → 0 < halve fuel i held
unfolding halve
halve_pos zero i held h p q = p
halve_pos (suc fuel) i held h p q = elim (Bool-cases (i == 0)) [
  | inl z ↦ rw z p
  | inr n ↦ rw n (halve_pos fuel (i / 2) (held / 2) (ground arith) (ground arith) (ground arith))
]

divide_share : (n d : ℕ) → d * (n / d) ≤ n
divide_share n d = grind arith

pub div-pos : (n d : ℕ) → 0 < d → d ≤ n → 0 < n / d
div-pos n d h k = grind arith

-- After a change of the number of active VCs, the dynamic policies let each of them hold at most an
-- equal share: together no more than the buffer.
abbrev pub IsShare : Limited → Type 0
IsShare l = l.active_vcs * l.max_held_slots ≤ l.buf_size

divide-IsShare : (l : Limited) → IsShare (divide l)
unfolding divide
divide-IsShare l = divide_share l.buf_size l.active_vcs

shift-IsShare : (l : Limited) → 0 < l.active_vcs → IsShare (shift l)
unfolding shift
shift-IsShare l h =
    let n : ℕ = l.active_vcs - 1 in
    omega (
      arith,
      halve_share n n l.buf_size (omega arith),
      mul_mono l.active_vcs (n + 1) (halve n n l.buf_size) (omega arith),
    )

pub shift_pos :
    (l : Limited)
    → 0 < l.buf_size
    → 2 * (l.active_vcs - 1) ≤ l.buf_size
    → 0 < (shift l).max_held_slots
unfolding shift
shift_pos l h k = halve_pos (l.active_vcs - 1) (l.active_vcs - 1) l.buf_size (omega arith) h k

same_active : (l : Limited) → (shift l).active_vcs ≡ l.active_vcs
unfolding shift
same_active l = refl

-- `TakeBuffer` of the dynamic policy succeeds while a VC is left and every active VC can have a
-- slot; the limit is then positive and a share, and only the limit and the
-- number of active VCs have changed.
pub take_buffer_dynamic-IsShare :
    (l : Limited)
    → l.active_vcs < l.vcs
    → l.vcs ≤ l.buf_size
    → (m : Limited) × (take_buffer_dynamic l ≡ ok m)
      × (m.active_vcs ≡ l.active_vcs + 1)
      × IsShare m
      × (0 < m.max_held_slots)
      × (m.vcs ≡ l.vcs)
      × (m.base ≡ l.base)
unfolding take_buffer_dynamic take_buffer
take_buffer_dynamic-IsShare l h k =
    let m : Limited = record l { active_vcs = l.active_vcs + 1 } in
    let p : 0 < l.buf_size / (l.active_vcs + 1) = div-pos _ _ (omega arith) (omega arith) in
    (divide m, ground (arith, p), refl, divide-IsShare m, p, refl, refl)

-- `TakeBuffer` of the shifting policy succeeds while a VC is left and there are two slots for each;
-- the limit is then positive and a share, and only the limit and the number of active VCs have
-- changed.
pub take_buffer_shifting-IsShare :
    (l : Limited)
    → l.active_vcs < l.vcs
    → 2 * l.vcs ≤ l.buf_size
    → (m : Limited) × (take_buffer_shifting l ≡ ok m)
      × (m.active_vcs ≡ l.active_vcs + 1)
      × IsShare m
      × (0 < m.max_held_slots)
      × (m.vcs ≡ l.vcs)
      × (m.base ≡ l.base)
unfolding take_buffer_shifting take_buffer
take_buffer_shifting-IsShare l h k =
    let m : Limited = record l { active_vcs = l.active_vcs + 1 } in
    let p : 0 < (shift m).max_held_slots = shift_pos m (omega arith) (omega arith) in
    (shift m, ground (arith, p), same_active m, shift-IsShare m (omega arith), p, refl, refl)

-- How both `SendingFlit`s end.
set_limit :
    (n : Limited) (g : Limited → Limited) (m : Limited) (f : Flit)
    → f.tail ≡ true
    → check_limit (if (f.tail && ltb 0 n.active_vcs) then g n else n) ≡ ok m
    → (0 < n.active_vcs → IsShare (g n))
    → IsShare m × (0 < m.max_held_slots)
unfolding check_limit
set_limit n g m f t e share = elim (Bool-cases (ltb 0 n.active_vcs)) [
  | inl some_left ↦
      let d : (g n ≡ m) × (0 < (g n).max_held_slots) = ground arith in
      subst (λ k. IsShare k × (0 < k.max_held_slots)) d.0 (share (ground arith), d.1)
  | inr none_left ↦
      let d : (n ≡ m) × (0 < n.max_held_slots) × (n.active_vcs ≡ 0) = ground arith in
      subst (λ k. IsShare k × (0 < k.max_held_slots)) d.0 (rw d.2 (omega arith), d.1)
]

-- In the dynamic and the shifting policy, a packet's last flit leaves a positive limit that is a
-- share again, whenever the call succeeds.
sending_tail-IsShare :
    (l m : Limited) (f : Flit)
    → f.tail ≡ true
    → ((sending_flit_dynamic l f ≡ ok m) ⊎ (sending_flit_shifting l f ≡ ok m))
    → IsShare m × (0 < m.max_held_slots)
unfolding sending_flit_dynamic sending_flit_shifting
sending_tail-IsShare l m f t (inl e) =
    let (n, _, e') = >>=-eq-ok (sending_flit l f) _ e in
    set_limit n divide m f t e' (λ h. divide-IsShare n)
sending_tail-IsShare l m f t (inr e) =
    let (n, _, e') = >>=-eq-ok (sending_flit l f) _ e in
    set_limit n shift m f t e' (shift-IsShare n)
