-- ===== src/Pipeline/Step.antt =====
-- One step of a pipeline, seen in one lane.
use bzsim.Base.{
  ℕ, zero, suc, ◌+◌, ◌%◌, ◌≤◌, ◌<◌, ◌≡◌, ◌≢◌, refl, sym, ap, ap₂, ◌∙◌, Option, none, some, List, [],
  ◌∷◌, ◌++◌, length, length-append, ◌==◌, update, update-same, update-other, update-id, eq_of_==,
  arith, lt→ltb, ==-of-eq, Bool-cases, inl, inr, subst,
}
use native.Mathlib.Nat.{mod-lt}
use bzsim.Pipeline.{PipelineFifo, write, write_all, read, advance, write_some, write_lanes, step}
use bzsim.Pipeline.Circle.{
  Holds, Holds-append, Holds-update, update_twice, Holds-ext, Holds-next, last_place,
}

module _ {T : Type 0} where
  -- The state of a pipeline between steps, seen in one lane.
  pub record HasLane (r : PipelineFifo T) (lane : ℕ) (q : List (Option T)) : Type 0 where
    pub within : lane < r.lanes
    pub full : length q ≡ r.depth
    pub shape : r.pipe_len ≡ suc r.depth
    pub at : r.pipe_ptr < r.pipe_len
    pub holds : Holds r.pipe_len (r.slots lane) (suc r.pipe_ptr) q

  -- What a step writes: the value at the pointer, and nothing else.
  write_all-lane :
      (r : PipelineFifo T) (lane : ℕ)
      → lane < r.lanes
      → (write_all r none).slots lane ≡ update (r.slots lane) r.pipe_ptr none
  unfolding write_all
  write_all-lane r lane h = rw (lt→ltb lane r.lanes h) refl

  -- Two states with the same fields but for the slots.
  record SameShape (s r : PipelineFifo T) : Type 0 where
    lanes : s.lanes ≡ r.lanes
    depth : s.depth ≡ r.depth
    len : s.pipe_len ≡ r.pipe_len
    ptr : s.pipe_ptr ≡ r.pipe_ptr

  write_all-SameShape : (r : PipelineFifo T) → SameShape (write_all r none) r
  unfolding write_all
  write_all-SameShape r = record { lanes = refl; depth = refl; len = refl; ptr = refl }

  write_some-SameShape :
      (r : PipelineFifo T) (x : Option T) (n : ℕ) → SameShape (write_some r x n) r
  unfolding write_some write
  write_some-SameShape r none n = record { lanes = refl; depth = refl; len = refl; ptr = refl }
  write_some-SameShape r (some x) n = record { lanes = refl; depth = refl; len = refl; ptr = refl }

  SameShape-trans : {a b c : PipelineFifo T} → SameShape a b → SameShape b c → SameShape a c
  SameShape-trans s t = record {
    lanes = s.lanes ∙ t.lanes;
    depth = s.depth ∙ t.depth;
    len = s.len ∙ t.len;
    ptr = s.ptr ∙ t.ptr;
  }

  write_lanes-SameShape :
      (n : ℕ) (r : PipelineFifo T) (vals : ℕ → Option T) → SameShape (write_lanes n r vals) r
  unfolding write_lanes
  write_lanes-SameShape zero r vals = record { lanes = refl; depth = refl; len = refl; ptr = refl }
  write_lanes-SameShape (suc n) r vals =
      SameShape-trans (write_some-SameShape (write_lanes n r vals) (vals n) n)
        (write_lanes-SameShape n r vals)

  write_some-other :
      (r : PipelineFifo T) (x : Option T) (n lane : ℕ)
      → n ≢ lane
      → (write_some r x n).slots lane ≡ r.slots lane
  unfolding write_some write
  write_some-other r none n lane h = refl
  write_some-other r (some x) n lane h = update-other r.slots n _ lane h

  write_some-same :
      (r : PipelineFifo T) (x : Option T) (n j : ℕ)
      → r.slots n r.pipe_ptr ≡ none
      → (write_some r x n).slots n j ≡ update (r.slots n) r.pipe_ptr x j
  unfolding write_some write
  write_some-same r none n j e = sym (update-id (r.slots n) r.pipe_ptr none e j)
  write_some-same r (some x) n j e = ap (λ (f : ℕ → Option T). f j) (update-same r.slots n _)

  write_lanes-other :
      (n : ℕ) (r : PipelineFifo T) (vals : ℕ → Option T) (lane : ℕ)
      → n ≤ lane
      → (write_lanes n r vals).slots lane ≡ r.slots lane
  unfolding write_lanes
  write_lanes-other zero r vals lane h = refl
  write_lanes-other (suc n) r vals lane h =
      write_some-other (write_lanes n r vals) (vals n) n lane (λ q. omega arith)
      ∙ write_lanes-other n r vals lane (omega arith)

  write_lanes-same :
      (n : ℕ) (r : PipelineFifo T) (vals : ℕ → Option T) (lane j : ℕ)
      → lane < n
      → r.slots lane r.pipe_ptr ≡ none
      → (write_lanes n r vals).slots lane j ≡ update (r.slots lane) r.pipe_ptr (vals lane) j
  unfolding write_lanes
  write_lanes-same zero r vals lane j h e = absurd (omega arith)
  write_lanes-same (suc n) r vals lane j h e = elim (Bool-cases (n == lane)) [
    | inr other ↦
        let ne : n ≢ lane = λ q. let f = ==-of-eq n lane q in cc in
        ap (λ (f : ℕ → Option T). f j) (write_some-other (write_lanes n r vals) (vals n) n lane ne)
        ∙ write_lanes-same n r vals lane j (ground arith) e
    | inl same ↦
        subst
          (λ k.
            (write_some (write_lanes n r vals) (vals n) n).slots k j
            ≡ update (r.slots k) r.pipe_ptr (vals k) j)
          (eq_of_== n lane same)
          (let k = write_lanes n r vals in
            let keep = write_lanes-other n r vals n (omega arith) in
            let ptr = (write_lanes-SameShape n r vals).ptr in
            let clear : r.slots n r.pipe_ptr ≡ none =
              subst (λ l. r.slots l r.pipe_ptr ≡ none) (sym (eq_of_== n lane same)) e in
            write_some-same k (vals n) n j
              (ap (λ (f : ℕ → Option T). f k.pipe_ptr) keep ∙ ap (r.slots n) ptr ∙ clear)
            ∙ ap₂ (λ (f : ℕ → Option T) (i : ℕ). update f i (vals n) j) keep ptr)
  ]

  -- A step writes the lane's value at the pointer, and moves the pointer.
  step-slots :
      (r : PipelineFifo T) (vals : ℕ → Option T) (lane j : ℕ)
      → lane < r.lanes
      → (step r vals).slots lane j ≡ update (r.slots lane) r.pipe_ptr (vals lane) j
  unfolding step advance
  step-slots r vals lane j h =
      let cleared = write_all-lane r lane h in
      let at =
        ap (λ (f : ℕ → Option T). f r.pipe_ptr) cleared
        ∙ update-same (r.slots lane) r.pipe_ptr none in
      let ptr = (write_all-SameShape r).ptr in
      write_lanes-same r.lanes (write_all r none) vals lane j h
        (ap ((write_all r none).slots lane) ptr ∙ at)
      ∙ ap₂ (λ (f : ℕ → Option T) (i : ℕ). update f i (vals lane) j) cleared ptr
      ∙ update_twice (r.slots lane) r.pipe_ptr none (vals lane) j

  read-slots : (r : PipelineFifo T) (lane : ℕ) → read r lane ≡ r.slots lane r.pipe_ptr
  unfolding read
  read-slots r lane = refl

  -- The pointer and the sizes after a step.
  step-shape :
      (r : PipelineFifo T) (vals : ℕ → Option T)
      → ((step r vals).lanes ≡ r.lanes)
        × ((step r vals).depth ≡ r.depth)
        × ((step r vals).pipe_len ≡ r.pipe_len)
        × ((step r vals).pipe_ptr ≡ (r.pipe_ptr + 1) % r.pipe_len)
  unfolding step advance
  step-shape r vals =
      let s =
        SameShape-trans (write_lanes-SameShape r.lanes (write_all r none) vals)
          (write_all-SameShape r) in
      (s.lanes, s.depth, s.len, ap₂ (λ (i n : ℕ). (i + 1) % n) s.ptr s.len)

  pub step-HasLane :
      (r : PipelineFifo T) (vals : ℕ → Option T) (lane : ℕ) (q : List (Option T)) (y : Option T)
      (p : List (Option T))
      → HasLane r lane q
      → q ++ (vals lane ∷ []) ≡ y ∷ p
      → (read (step r vals) lane ≡ y) × HasLane (step r vals) lane p
  step-HasLane r vals lane q y p i e =
      let len = r.pipe_len in
      let new = update (r.slots lane) r.pipe_ptr (vals lane) in
      let at_end : (suc r.pipe_ptr + length q) % len ≡ r.pipe_ptr =
        last_place len r.pipe_ptr (length q) i.at (omega (arith, i.full, i.shape)) in
      let kept =
        Holds-update len (r.slots lane) r.pipe_ptr (suc r.pipe_ptr) q (vals lane) i.at (omega arith)
          (omega (arith, i.full, i.shape)) i.holds in
      let all =
        Holds-append len new (suc r.pipe_ptr) q (vals lane) kept
          (ap new at_end ∙ update-same (r.slots lane) r.pipe_ptr (vals lane)) in
      let (first, rest) = subst (Holds len new (suc r.pipe_ptr)) e all in
      let size : length q + 1 ≡ suc (length p) =
        sym (length-append q (vals lane ∷ [])) ∙ ap length e in
      let (lanes, depth, same_len, ptr) = step-shape r vals in
      let slots = λ (j : ℕ). step-slots r vals lane j i.within in
      (
        read-slots (step r vals) lane
            ∙ slots (step r vals).pipe_ptr
            ∙ ap new (ptr ∙ ap (λ (k : ℕ). k % len) (omega arith))
            ∙ first,
        record {
          within = omega (arith, i.within, lanes);
          full = omega (arith, size, i.full, depth);
          shape = omega (arith, i.shape, same_len, depth);
          at = omega (arith, ptr, same_len, mod-lt (r.pipe_ptr + 1) (positive i.at));
          holds =
              subst (λ l. Holds l ((step r vals).slots lane) (suc (step r vals).pipe_ptr) p)
                (sym same_len)
                (subst (λ k. Holds len ((step r vals).slots lane) (suc k) p) (sym ptr)
                  (Holds-ext len new _ _ p slots (Holds-next len new r.pipe_ptr p i.at rest)));
        },
      )
    where
      positive : r.pipe_ptr < r.pipe_len → 0 < r.pipe_len
      positive h = omega arith
