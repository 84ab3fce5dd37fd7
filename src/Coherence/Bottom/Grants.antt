-- ===== src/Coherence/Bottom/Grants.antt =====
-- What a controller relies on in its parent, and what it then grants.
use bzsim.Base.{
  ℕ, ◌+◌, ◌%◌, ◌^◌, ◌≤◌, ◌<◌, ◌==◌, ◌≡◌, ◌≢◌, refl, Bool, true, false, ◌||◌, Bool-cases, ◌⊎◌, inl,
  inr, leb, ok, arith, ltb,
}
use bzsim.Coherence.{
  MesiState, invalid, shared, exclusive, modified, AccessType, gets, getx, puts, putx, Flags,
  no_flags, MemReq, is_invalid, has_exclusive, is_modified, is_put, add64, sub64,
}
use bzsim.Coherence.Bottom.{
  Parents, BottomConfig, hash_address, get_parent_id, request, write_back, fetch, evict, absorb,
  switch_access, process_access, process_eviction,
}
use bzsim.Coherence.Memory

-- A child with a line in this state may ask for this.
abbrev pub CanAsk : AccessType → MesiState → Type 0
CanAsk gets state = is_invalid state ≡ true
CanAsk getx state = has_exclusive state ≡ false
CanAsk puts state = is_invalid state ≡ false
CanAsk putx state = has_exclusive state ≡ true

-- What it then has.
abbrev pub IsGiven : AccessType → MesiState → Type 0
IsGiven gets state = (state ≡ shared) ⊎ (state ≡ exclusive)
IsGiven getx state = state ≡ modified
IsGiven type state = state ≡ invalid

-- A parent serves every request that may be made, in the first half of time.
abbrev pub IsParent : Parents → Type 0
IsParent up =
    (p : ℕ) (req : MemReq) (state : MesiState)
    → CanAsk req.type state
    → req.cycle < 2 ^ 63
    → (state' : MesiState) × (resp : ℕ) × (up p req state ≡ ok (state', resp))
      × IsGiven req.type state'

-- A memory with a latency serves every request that may be made in the first half of time: a PUT
-- leaves the child's line invalid, a GETX modified, and a GETS shared or exclusive, never exclusive
-- where the request forbids it. Time goes on.
access-IsGiven :
    (latency : ℕ) (req : MemReq) (state : MesiState)
    → 0 < latency
    → latency < 2 ^ 32
    → CanAsk req.type state
    → req.cycle < 2 ^ 63
    → (state' : MesiState) × (resp : ℕ) × (Memory.access latency req state ≡ ok (state', resp))
      × IsGiven req.type state'
      × (req.flags.no_excl ≡ true → state' ≢ exclusive)
      × (req.cycle < resp)
unfolding Memory.access Memory.grant
access-IsGiven latency req state some small h early =
    let on : add64 req.cycle latency ≡ req.cycle + latency = omega arith in
    let passes : ltb req.cycle (add64 req.cycle latency) ≡ true = rw (on) (ground arith) in
    (
      Memory.grant req,
      add64 req.cycle latency,
      rw (passes) refl,
      (given req.type).0,
      (given req.type).1,
      omega arith,
    )
  where
    granted : req.flags.no_excl ≡ true → Memory.grant (record req { type = gets }) ≡ shared
    granted e = rw (e) refl

    differ : {a : MesiState} → a ≡ shared → a ≡ exclusive → ⊥
    differ e f = cc

    given :
        (type : AccessType)
        → IsGiven type (Memory.grant (record req { type = type }))
          × (req.flags.no_excl ≡ true → Memory.grant (record req { type = type }) ≢ exclusive)
    given gets = elim (Bool-cases req.flags.no_excl) [
      | inl e ↦ (inl (rw (e) refl), λ f g. absurd (differ (granted e) g))
      | inr e ↦ (inr (rw (e) refl), λ f g. cc)
    ]
    given getx = (refl, λ f g. cc)
    given puts = (refl, λ f g. cc)
    given putx = (refl, λ f g. cc)

-- So it is a parent for the last caches.
pub access-IsParent :
    (latency : ℕ) → 0 < latency → latency < 2 ^ 32 → IsParent (λ p. Memory.access latency)
access-IsParent latency some small p req state h early =
    let (state', resp, run, given, other, late) =
      access-IsGiven latency req state some small h early in
    (state', resp, run, given)

-- The state of a line that may be asked for, and that it is left in.
abbrev pub CanServe : AccessType → MesiState → Type 0
CanServe gets own = Unit
CanServe getx own = Unit
CanServe puts own = is_invalid own ≡ false
CanServe putx own = has_exclusive own ≡ true

abbrev pub Serves : AccessType → MesiState → MesiState → Type 0
Serves gets own own' = (is_invalid own' ≡ false) × ((is_invalid own ≡ false) → own' ≡ own)
Serves getx own own' = own' ≡ modified
Serves puts own own' = own' ≡ own
Serves putx own own' = own' ≡ modified

same : (n : ℕ) → leb n n ≡ true
same n = ground arith

at_most : (a b : ℕ) → leb a b ≡ true → a ≤ b
at_most a b h = ground arith

module _ (up : Parents) (b : BottomConfig) (parent : IsParent up) (some : 0 < b.parents_size) where
  get_parent_id-ok : (a : ℕ) → get_parent_id b a ≡ ok (hash_address a % b.parents_size)
  unfolding get_parent_id
  get_parent_id-ok a = let e : (b.parents_size == 0) ≡ false = ground arith in rw (e) refl

  -- Whatever the parent answers, time does not go back.
  later : (cycle n : ℕ) → cycle < 2 ^ 63 → leb cycle (add64 cycle (n % 2 ^ 32)) ≡ true
  later cycle n h = let f : cycle ≤ add64 cycle (n % 2 ^ 32) = omega arith in ground arith

  fetch-IsGiven :
      (type : AccessType) (a : ℕ) (own : MesiState) (cycle src_id : ℕ) (flags : Flags) (noc : Bool)
      → CanAsk type own
      → cycle < 2 ^ 63
      → (own' : MesiState) × (n : ℕ) × (fetch up b type a own cycle src_id flags noc
          ≡ ok (own', add64 cycle (n % 2 ^ 32)))
        × IsGiven type own'
  unfolding fetch
  fetch-IsGiven type a own cycle src_id flags noc h early =
      let p = hash_address a % b.parents_size in
      let (own', resp, run, given) =
        parent p (request b a type own cycle src_id flags noc) own h early in
      (own', sub64 resp cycle % 2 ^ 32 + b.parent_rtts p, rw (get_parent_id-ok a, run) refl, given)

  -- An access that the line allows succeeds, takes time forward, and leaves the line with the
  -- permission that the child asks for; it keeps what it had.
  pub process_access-Serves :
      (type : AccessType) (a : ℕ) (own : MesiState) (cycle src_id : ℕ) (flags : Flags) (noc : Bool)
      → CanServe type own
      → cycle < 2 ^ 63
      → (own' : MesiState) × (resp : ℕ) × (process_access up b a own type cycle src_id flags noc
          ≡ ok (own', resp))
        × Serves type own own'
        × (cycle ≤ resp)
  unfolding process_access switch_access
  process_access-Serves puts a own cycle src_id flags noc h early =
      (own, cycle, rw (h, same cycle) refl, refl, omega arith)
  process_access-Serves putx a own cycle src_id flags noc h early =
      (modified, cycle, rw (h, same cycle) refl, refl, omega arith)
  process_access-Serves gets a shared cycle src_id flags noc h early =
      (shared, cycle, rw (same cycle) refl, (refl, λ x. refl), omega arith)
  process_access-Serves gets a exclusive cycle src_id flags noc h early =
      (exclusive, cycle, rw (same cycle) refl, (refl, λ x. refl), omega arith)
  process_access-Serves gets a modified cycle src_id flags noc h early =
      (modified, cycle, rw (same cycle) refl, (refl, λ x. refl), omega arith)
  process_access-Serves gets a invalid cycle src_id flags noc h early =
      let (own', n, run, given) = fetch-IsGiven gets a invalid cycle src_id flags noc refl early in
      let on = later cycle n early in
      elim given [
        | inl e ↦ (
          shared,
          add64 cycle (n % 2 ^ 32),
          rw (run, e, on) refl,
          (refl, λ x. cc),
          at_most cycle (add64 cycle (n % 2 ^ 32)) on,
        )
        | inr e ↦ (
          exclusive,
          add64 cycle (n % 2 ^ 32),
          rw (run, e, on) refl,
          (refl, λ x. cc),
          at_most cycle (add64 cycle (n % 2 ^ 32)) on,
        )
      ]
  process_access-Serves getx a exclusive cycle src_id flags noc h early =
      (modified, cycle, rw (same cycle) refl, refl, omega arith)
  process_access-Serves getx a modified cycle src_id flags noc h early =
      (modified, cycle, rw (same cycle) refl, refl, omega arith)
  process_access-Serves getx a invalid cycle src_id flags noc h early =
      let (own', n, run, given) = fetch-IsGiven getx a invalid cycle src_id flags noc refl early in
      let on = later cycle n early in
      (
        modified,
        add64 cycle (n % 2 ^ 32),
        rw (run, given, on) refl,
        refl,
        at_most cycle (add64 cycle (n % 2 ^ 32)) on,
      )
  process_access-Serves getx a shared cycle src_id flags noc h early =
      let (own', n, run, given) = fetch-IsGiven getx a shared cycle src_id flags noc refl early in
      let on = later cycle n early in
      (
        modified,
        add64 cycle (n % 2 ^ 32),
        rw (run, given, on) refl,
        refl,
        at_most cycle (add64 cycle (n % 2 ^ 32)) on,
      )

  -- A writeback leaves the line invalid.
  write_back-invalid :
      (type : AccessType) (a : ℕ) (own : MesiState) (cycle src_id : ℕ)
      → is_put type ≡ true
      → CanAsk type own
      → cycle < 2 ^ 63
      → (resp : ℕ) × (write_back up b type a own cycle src_id ≡ ok (invalid, resp))
  unfolding write_back
  write_back-invalid puts a own cycle src_id put h early =
      let p = hash_address a % b.parents_size in
      let (own', resp, run, given) =
        parent p (request b a puts own cycle src_id no_flags false) own h early in
      (resp, rw (get_parent_id-ok a, run, given) refl)
  write_back-invalid putx a own cycle src_id put h early =
      let p = hash_address a % b.parents_size in
      let (own', resp, run, given) =
        parent p (request b a putx own cycle src_id no_flags false) own h early in
      (resp, rw (get_parent_id-ok a, run, given) refl)
  write_back-invalid type a own cycle src_id put h early = cc

  -- An eviction leaves the line invalid. Modified data, of the line or of a child, goes up by a
  -- PUTX of the line as modified.
  pub process_eviction-invalid :
      (a : ℕ) (own : MesiState) (writeback : Bool) (cycle src_id : ℕ)
      → (writeback ≡ true → has_exclusive own ≡ true)
      → cycle < 2 ^ 63
      → (resp : ℕ) × (process_eviction up b a own writeback cycle src_id ≡ ok (invalid, resp))
        × ((writeback || is_modified own) ≡ true
            → write_back up b putx a modified cycle src_id ≡ ok (invalid, resp))
  unfolding process_eviction absorb evict
  process_eviction-invalid a own true cycle src_id h early =
      let (resp, run) = write_back-invalid putx a modified cycle src_id refl refl early in
      (resp, rw (h refl, run) refl, λ x. run)
  process_eviction-invalid a modified false cycle src_id h early =
      let (resp, run) = write_back-invalid putx a modified cycle src_id refl refl early in
      (resp, rw (run) refl, λ x. run)
  process_eviction-invalid a invalid false cycle src_id h early = (cycle, refl, λ x. cc)
  process_eviction-invalid a shared false cycle src_id h early = elim (Bool-cases b.is_llc) [
    | inl e ↦ (cycle, rw (e) refl, λ x. cc)
    | inr e ↦
        let (resp, run) = write_back-invalid puts a shared cycle src_id refl refl early in
        (resp, rw (run, e) refl, λ x. cc)
  ]
  process_eviction-invalid a exclusive false cycle src_id h early = elim (Bool-cases b.is_llc) [
    | inl e ↦ (cycle, rw (e) refl, λ x. cc)
    | inr e ↦
        let (resp, run) = write_back-invalid puts a exclusive cycle src_id refl refl early in
        (resp, rw (run, e) refl, λ x. cc)
  ]
