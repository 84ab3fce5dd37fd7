-- ===== src/BufferPolicy/Feedback/Credits.antt =====
-- The feedback policies keep the accounts of the shared one, and know when each flit was sent.
use bzsim.Base.{
  ℕ, zero, suc, ◌+◌, ◌-◌, ◌≤◌, ◌<◌, ◌≡◌, refl, ap, sym, subst, ◌∙◌, pos_part, neg_part, max, ◌*◌,
  is_negative, Bool, false, update, List, [], ◌∷◌, ◌++◌, length, length-append, Outcome, ok, ◌>>=◌,
  arith,
}
use bzsim.Flit.{Flit}
use bzsim.BufferPolicy.View.{View, occupancy_for}
use bzsim.BufferPolicy.Shared
use bzsim.BufferPolicy.Shared.{Shared}
use bzsim.BufferPolicy.Shared.Account.{Accounts}
use bzsim.BufferPolicy.Shared.Flow.{held, sent, sending_flit-Keeps, free_slot_for-Keeps}
use bzsim.BufferPolicy.Feedback.{
  Feedback, SimpleFeedback, sending_flit, compute_rtt, compute_limit, measured, probe_back,
  free_slot_for, is_full_for, sending_flit_simple, free_slot_for_simple,
}

-- A time is kept for each filled slot, and the minimum latency is known.
pub record IsTimed (occ : ℕ → ℕ) (p : Feedback) : Type 0 where
  pub latency : is_negative p.min_latency ≡ false
  pub times : (v : ℕ) → length (p.flit_sent_time v) ≡ occ v

pub is_full_for-base :
    (p : Feedback) (v : View) (now vc : ℕ)
    → is_full_for p v now vc ≡ ok false
    → Shared.is_full_for p.base vc ≡ ok false
unfolding is_full_for
is_full_for-base p v now vc h = go (Shared.is_full_for p.base vc) refl
  where
    go :
        (m : Outcome Bool)
        → Shared.is_full_for p.base vc ≡ m
        → Shared.is_full_for p.base vc ≡ ok false
    go m e = ground arith

pub sending_flit-IsTimed :
    (cap vcs : ℕ) (occ : ℕ → ℕ) (p : Feedback) (now : ℕ) (f : Flit)
    → Accounts cap vcs (held occ p.base) p.base
    → IsTimed occ p
    → f.vc < vcs
    → Shared.is_full_for p.base f.vc ≡ ok false
    → (q : Feedback) × (sending_flit p now f ≡ ok q)
      × Accounts cap vcs (held (sent occ f.vc) q.base) q.base
      × IsTimed (sent occ f.vc) q
unfolding sending_flit
sending_flit-IsTimed cap vcs occ p now f acc t h full =
    let ((s, e, acc', _), _) = sending_flit-Keeps cap vcs occ p.base f acc h full in
    let queue : List ℕ = p.flit_sent_time f.vc ++ now ∷ [] in
    let q : Feedback = record p { base = s; flit_sent_time = update p.flit_sent_time f.vc queue } in
    (
      q,
      rw (e, ◌>>=◌),
      acc',
      record {
        latency = t.latency;
        times = λ j. ground (arith, t.times j, length-append (p.flit_sent_time f.vc) (now ∷ []));
      },
    )

-- With the minimum latency known, the return of a probe sets a limit of at least one slot, and takes
-- its time from the queue.
pub probe_back-ok :
    (p : Feedback) (now vc sent_at : ℕ) (rest : List ℕ)
    → is_negative p.min_latency ≡ false
    → (q : Feedback) × (probe_back p now vc sent_at rest ≡ ok q)
      × (q.base ≡ p.base)
      × (q.min_latency ≡ p.min_latency)
      × (q.flit_sent_time ≡ update p.flit_sent_time vc rest)
      × (0 < q.occupancy_limit vc)
unfolding probe_back compute_limit
probe_back-ok p now vc sent_at rest l =
    let rtt : ℕ = compute_rtt p vc (now - sent_at) in
    let limit : ℕ =
      max (2 * pos_part p.min_latency + pos_part p.offset - (rtt + neg_part p.offset)) 1 in
    (measured p vc rtt limit rest, ground (arith, l), refl, refl, refl, ground arith)

free_slot_for-probe_back :
    (p : Feedback) (view : View) (now vc x : ℕ) (rest : List ℕ) (s : Shared)
    → p.flit_sent_time vc ≡ x ∷ rest
    → Shared.free_slot_for p.base view vc ≡ ok s
    → free_slot_for p view now vc ≡ probe_back (record p { base = s }) now vc x rest
unfolding free_slot_for
free_slot_for-probe_back p view now vc x rest s e h = rw (h, ◌>>=◌, e)

pub free_slot_for-IsTimed :
    (cap vcs : ℕ) (occ : ℕ → ℕ) (p : Feedback) (view : View) (now vc : ℕ) (queue : List ℕ)
    → p.flit_sent_time vc ≡ queue
    → Accounts cap vcs (held occ p.base) p.base
    → IsTimed occ p
    → view.vcs ≡ vcs
    → vc < vcs
    → 0 < occ vc
    → (q : Feedback) × (free_slot_for p view now vc ≡ ok q)
      × Accounts cap vcs (held (update occ vc (occ vc - 1)) q.base) q.base
      × IsTimed (update occ vc (occ vc - 1)) q
free_slot_for-IsTimed cap vcs occ p view now vc [] e acc t ev h pos_occ =
    absurd (ground (arith, t.times vc))
free_slot_for-IsTimed cap vcs occ p view now vc (x ∷ rest) e acc t ev h pos_occ =
    let (s, e', acc', _) = free_slot_for-Keeps cap vcs occ p.base view vc acc ev h pos_occ in
    let (q, e'', b, l, ts, _) = probe_back-ok (record p { base = s }) now vc x rest t.latency in
    (
      q,
      free_slot_for-probe_back p view now vc x rest s e e' ∙ e'',
      subst (λ u. Accounts cap vcs (held (update occ vc (occ vc - 1)) u) u) (sym b) acc',
      record {
        latency = ap is_negative l ∙ t.latency;
        times = λ j. rw ts (ground (arith, t.times j, t.times vc, ap length e));
      },
    )

-- One probe at a time: `pending_credits` flits were sent before it and are still out.
pub record HasProbe (occ : ℕ → ℕ) (p : SimpleFeedback) : Type 0 where
  pub latency : is_negative p.min_latency ≡ false
  pub one : (v : ℕ) → length (p.flit_sent_time v) ≤ 1
  pub none_out : (v : ℕ) → length (p.flit_sent_time v) ≡ 0 → p.pending_credits v ≡ 0
  pub before : (v : ℕ) → length (p.flit_sent_time v) ≡ 1 → p.pending_credits v < occ v

pub sending_flit-HasProbe :
    (cap vcs : ℕ) (occ : ℕ → ℕ) (p : SimpleFeedback) (view : View) (now : ℕ) (f : Flit)
    (queue : List ℕ)
    → p.flit_sent_time f.vc ≡ queue
    → Accounts cap vcs (held occ p.base) p.base
    → HasProbe occ p
    → view.vcs ≡ vcs
    → view.vc_occupancy ≡ sent occ f.vc
    → f.vc < vcs
    → Shared.is_full_for p.base f.vc ≡ ok false
    → (q : SimpleFeedback) × (sending_flit_simple p view now f ≡ ok q)
      × Accounts cap vcs (held (sent occ f.vc) q.base) q.base
      × HasProbe (sent occ f.vc) q
unfolding sending_flit_simple sending_flit occupancy_for
sending_flit-HasProbe cap vcs occ p view now f [] e acc t ev eo h full =
    let ((s, e', acc', _), _) = sending_flit-Keeps cap vcs occ p.base f acc h full in
    let seen : view.vc_occupancy f.vc ≡ occ f.vc + 1 = ap (λ g. g f.vc) eo ∙ ground arith in
    let fb : Feedback = record p.feedback {
      base = s;
      flit_sent_time = update p.flit_sent_time f.vc (p.flit_sent_time f.vc ++ now ∷ []);
    } in
    let q : SimpleFeedback = record {
      feedback = fb;
      pending_credits = update p.pending_credits f.vc (view.vc_occupancy f.vc - 1);
    } in
    (
      q,
      rw (e, sending_flit_simple) (ground (arith, e', seen)),
      acc',
      record {
        latency = t.latency;
        one = λ j.
            ground (arith, t.one j, ap length e, length-append (p.flit_sent_time f.vc) (now ∷ []));
        none_out =
            λ j z. ground (arith, t.none_out j, length-append (p.flit_sent_time f.vc) (now ∷ []));
        before = λ j z. ground (arith, t.before j, seen);
      },
    )
sending_flit-HasProbe cap vcs occ p view now f (x ∷ rest) e acc t ev eo h full =
    let ((s, e', acc', _), _) = sending_flit-Keeps cap vcs occ p.base f acc h full in
    (
      record p { feedback = record p.feedback { base = s } },
      rw (e, sending_flit_simple, e', ◌>>=◌),
      acc',
      record {
        latency = t.latency;
        one = t.one;
        none_out = t.none_out;
        before = λ j z. ground (arith, t.before j z);
      },
    )

pub free_slot_for-HasProbe :
    (cap vcs : ℕ) (occ : ℕ → ℕ) (p : SimpleFeedback) (view : View) (now vc n : ℕ) (queue : List ℕ)
    → p.pending_credits vc ≡ n
    → p.flit_sent_time vc ≡ queue
    → Accounts cap vcs (held occ p.base) p.base
    → HasProbe occ p
    → view.vcs ≡ vcs
    → vc < vcs
    → 0 < occ vc
    → (q : SimpleFeedback) × (free_slot_for_simple p view now vc ≡ ok q)
      × Accounts cap vcs (held (update occ vc (occ vc - 1)) q.base) q.base
      × HasProbe (update occ vc (occ vc - 1)) q
unfolding free_slot_for_simple
free_slot_for-HasProbe cap vcs occ p view now vc zero [] en e acc t ev h some =
    let (s, e', acc', _) = free_slot_for-Keeps cap vcs occ p.base view vc acc ev h some in
    (
      record p { feedback = record p.feedback { base = s } },
      rw (en, free_slot_for_simple, e, e', ◌>>=◌),
      acc',
      record {
        latency = t.latency;
        one = t.one;
        none_out = t.none_out;
        before = λ j z. ground (arith, t.before j z, ap length e);
      },
    )
free_slot_for-HasProbe cap vcs occ p view now vc zero (x ∷ rest) en e acc t ev h some =
    let (s, e', acc', _) = free_slot_for-Keeps cap vcs occ p.base view vc acc ev h some in
    let (q, e'', b, l, ts, _) =
      probe_back-ok (record p.feedback { base = s }) now vc x rest t.latency in
    (
      record p { feedback = q },
      rw (
        en,
        free_slot_for_simple,
        e,
        free_slot_for-probe_back p.feedback view now vc x rest s e e',
        e'',
      ),
      subst (λ u. Accounts cap vcs (held (update occ vc (occ vc - 1)) u) u) (sym b) acc',
      record {
        latency = ap is_negative l ∙ t.latency;
        one = λ j. rw ts (ground (arith, t.one j, t.one vc, ap length e));
        none_out = λ j. rw ts (λ z. ground (arith, t.none_out j));
        before = λ j. rw ts (λ z. ground (arith, t.before j, t.one vc, ap length e));
      },
    )
free_slot_for-HasProbe cap vcs occ p view now vc (suc n) [] en e acc t ev h some =
    absurd (omega (arith, t.none_out vc (ap length e)))
free_slot_for-HasProbe cap vcs occ p view now vc (suc n) (x ∷ rest) en e acc t ev h some =
    let (s, e', acc', _) = free_slot_for-Keeps cap vcs occ p.base view vc acc ev h some in
    (
      record p {
        feedback = record p.feedback { base = s };
        pending_credits = update p.pending_credits vc n;
      },
      rw (en, free_slot_for_simple, e, e', ◌>>=◌),
      acc',
      record {
        latency = t.latency;
        one = t.one;
        none_out = λ j z. ground (arith, t.none_out j z, ap length e);
        before = λ j z. ground (arith, t.before j z, t.before vc, t.one vc, ap length e);
      },
    )
