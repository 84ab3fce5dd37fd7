-- ===== src/Channel/Delay.antt =====
-- A channel is a delay line: what is sent is received after the latency, and nothing else.
use bzsim.Base.{
  ℕ, zero, suc, ◌+◌, ◌-◌, ◌≤◌, ◌≡◌, refl, sym, ap, ◌∙◌, Option, none, some, List, [], ◌∷◌, ◌++◌,
  length, take, replicate, length-replicate, length-append, append_assoc, false, ltb, ok, pos,
  ◌>>=◌, arith, lt→ltb, ==-of-eq, inl, inr, ◌⊎◌,
}
use bzsim.Channel.{
  Channel, init, set_latency, send, receive, read_inputs, front, write_outputs, cycle, run,
}

-- What lies on the line, with the time at which each item comes out, from `now` on.
unfoldable pub stamped : {T : Type 0} → ℕ → List (Option T) → List (ℕ × T)
stamped now [] = []
stamped now (none ∷ q) = stamped (suc now) q
stamped now (some x ∷ q) = (now, x) ∷ stamped (suc now) q

stamped-append-none :
    {T : Type 0} (now : ℕ) (q : List (Option T)) → stamped now (q ++ (none ∷ [])) ≡ stamped now q
unfolding stamped
stamped-append-none now [] = refl
stamped-append-none now (none ∷ q) = stamped-append-none (suc now) q
stamped-append-none {T} now (some x ∷ q) =
    ap (λ (l : List (ℕ × T)). (now, x) ∷ l) (stamped-append-none (suc now) q)

stamped-append-some :
    {T : Type 0} (now : ℕ) (q : List (Option T)) (x : T) (t : ℕ)
    → t ≡ now + length q
    → stamped now (q ++ (some x ∷ [])) ≡ stamped now q ++ ((t, x) ∷ [])
unfolding stamped
stamped-append-some {T} now [] x t e = ap (λ (k : ℕ). (k, x) ∷ []) (omega arith)
stamped-append-some now (none ∷ q) x t e = stamped-append-some (suc now) q x t (omega arith)
stamped-append-some {T} now (some y ∷ q) x t e =
    ap (λ (l : List (ℕ × T)). (now, y) ∷ l) (stamped-append-some (suc now) q x t (omega arith))

-- The channel holds `q`, of the length that the latency says.
record Holds {T : Type 0} (c : Channel T) (now : ℕ) (q : List (Option T)) : Type 0 where
  latency : c.delay ≡ suc (length q)
  queue : c.wait_queue ≡ stamped now q

read_inputs-queue :
    {T : Type 0} (c : Channel T) (now : ℕ) (q : List (Option T)) (x : Option T)
    → Holds c now q
    → (read_inputs (send c x) now).wait_queue ≡ stamped now (q ++ (x ∷ []))
unfolding read_inputs send
read_inputs-queue c now q none h = h.queue ∙ sym (stamped-append-none now q)
read_inputs-queue {T} c now q (some x) h =
    ap (λ (l : List (ℕ × T)). l ++ ((now + c.delay - 1, x) ∷ [])) h.queue
    ∙ sym (stamped-append-some now q x (now + c.delay - 1) (omega (arith, h.latency)))

-- The first of the items comes out now, or nothing does.
record Written {T : Type 0} (c : Channel T) (now : ℕ) (y : Option T) (p : List (Option T))
    : Type 0 where
  after : Channel T
  succeeds : write_outputs c now ≡ ok after
  received : after.output ≡ y
  queue : after.wait_queue ≡ stamped (suc now) p
  latency : after.delay ≡ c.delay

-- Later items are due later.
stamped-later :
    {T : Type 0} (now : ℕ) (p : List (Option T))
    → (stamped now p ≡ [])
      ⊎ ((t : ℕ) × (x : T) × (rest : List (ℕ × T)) × (stamped now p ≡ (t, x) ∷ rest) × (now ≤ t))
unfolding stamped
stamped-later now [] = inl refl
stamped-later now (none ∷ p) = elim (stamped-later (suc now) p) [
  | inl e ↦ inl e
  | inr (t, x, rest, e, h) ↦ inr (t, x, rest, e, omega arith)
]
stamped-later now (some x ∷ p) = inr (now, x, stamped (suc now) p, refl, omega arith)

not_before : (now : ℕ) → ltb now now ≡ false
not_before now = ground arith

write_outputs-Written :
    {T : Type 0} (c : Channel T) (now : ℕ) (y : Option T) (p : List (Option T))
    → c.wait_queue ≡ stamped now (y ∷ p)
    → Written c now y p
unfolding write_outputs front stamped
write_outputs-Written c now (some x) p e = record {
  after = record c { output = some x; wait_queue = stamped (suc now) p };
  succeeds = ap (front c now) e ∙ rw (not_before now, ==-of-eq now now refl) refl;
  received = refl;
  queue = refl;
  latency = refl;
}
write_outputs-Written c now none p e = elim (stamped-later (suc now) p) [
  | inl none_left ↦ record {
    after = record c { output = none };
    succeeds = ap (front c now) (e ∙ none_left);
    received = refl;
    queue = e;
    latency = refl;
  }
  | inr (t, x, rest, f, h) ↦ record {
    after = record c { output = none };
    succeeds = ap (front c now) (e ∙ f) ∙ rw (lt→ltb now t h) refl;
    received = refl;
    queue = e;
    latency = refl;
  }
]

delay-read_inputs :
    {T : Type 0} (c : Channel T) (now : ℕ) (x : Option T)
    → (read_inputs (send c x) now).delay ≡ c.delay
unfolding read_inputs send
delay-read_inputs c now none = refl
delay-read_inputs c now (some x) = refl

stamped-none : {T : Type 0} (n now : ℕ) → stamped {T = T} now (replicate n none) ≡ []
unfolding stamped
stamped-none zero now = refl
stamped-none (suc n) now = stamped-none n (suc now)

-- One cycle: the new item joins the line, and the first of the line comes out.
cycle-Written :
    {T : Type 0} (c : Channel T) (now : ℕ) (q : List (Option T)) (x y : Option T)
    (p : List (Option T))
    → Holds c now q
    → q ++ (x ∷ []) ≡ y ∷ p
    → (d : Channel T) × (cycle c now x ≡ ok d) × (receive d ≡ y) × Holds d (suc now) p
unfolding cycle receive
cycle-Written {T} c now q x y p h e =
    let w =
      write_outputs-Written (read_inputs (send c x) now) now y p
        (read_inputs-queue c now q x h ∙ ap (stamped now) e) in
    let n : length q + 1 ≡ suc (length p) = sym (length-append q (x ∷ [])) ∙ ap length e in
    (
      w.after,
      w.succeeds,
      w.received,
      record {
        latency = w.latency ∙ delay-read_inputs c now x ∙ h.latency ∙ omega (arith, n);
        queue = w.queue;
      },
    )

run-Holds :
    {T : Type 0} (c : Channel T) (now : ℕ) (q xs : List (Option T))
    → Holds c now q
    → run c now xs ≡ ok (take (length xs) (q ++ xs))
unfolding run
run-Holds c now q [] h = refl
run-Holds c now [] (x ∷ xs) h =
    let (d, e, r, g) = cycle-Written c now [] x x [] h refl in
    rw (e, r, run-Holds d (suc now) [] xs g) refl
run-Holds {T} c now (y ∷ p) (x ∷ xs) h =
    let (d, e, r, g) = cycle-Written c now (y ∷ p) x y (p ++ (x ∷ [])) h refl in
    rw (e, r, run-Holds d (suc now) (p ++ (x ∷ [])) xs g, append_assoc p (x ∷ []) xs) refl

-- From the constructor, with a latency of `n + 1`, in whatever cycle the run begins: what is
-- received in each cycle is what was sent `n` cycles before, and nothing in the first `n`. No
-- assertion fails.
pub run-delay :
    {T : Type 0} (n now : ℕ) (xs : List (Option T))
    → (set_latency init (pos (suc n)) >>= λ c. run c now xs)
      ≡ ok (take (length xs) (replicate n none ++ xs))
unfolding set_latency init
run-delay {T} n now xs =
    run-Holds (record { delay = suc n; input = none; output = none; wait_queue = [] }) now
      (replicate n none) xs
      (record {
        latency = ap suc (sym (length-replicate {A = Option T} n none));
        queue = sym (stamped-none n now);
      })
