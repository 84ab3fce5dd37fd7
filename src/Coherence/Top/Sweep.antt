-- ===== src/Coherence/Top/Sweep.antt =====
-- The loops of `sendInvalidates`: every sharer is told, and answers.
use bzsim.Base.{
  ℕ, zero, suc, ◌+◌, ◌≤◌, ◌<◌, ◌≡◌, ◌≢◌, refl, sym, ap, ◌∙◌, subst, Bool, true, false, not, ◌||◌,
  Bool-cases, inl, inr, update, ok, count, arith, if◌then◌else◌, bit, total, below_suc, update-same,
  update-other, ltb, lt→ltb,
}
use bzsim.Coherence.{MesiState, invalid, InvType, inv, invx, fwd, is_invalid, has_exclusive, larger}
use bzsim.Coherence.Top.{TopConfig, Dir, Entry, Sent, send_one, send_each, is_inv, set_sharer}
use bzsim.Coherence.Top.Children.{IsChild, CanFollow, Follows}

-- Modified data is with one of the first `n` children.
abbrev pub any : ℕ → (ℕ → Bool) → Bool
any zero p = false
any (suc n) p = any n p || p n

-- A child without a copy follows as it is.
Follows-invalid :
    (type : InvType) (state : MesiState) → is_invalid state ≡ true → Follows type state state
Follows-invalid inv invalid h = refl
Follows-invalid inv state h = cc
Follows-invalid invx invalid h = (refl, refl)
Follows-invalid invx state h = cc
Follows-invalid fwd state h = refl

pub listed-invalid : (b : Bool) → not b ≡ false → b ≡ true
listed-invalid true h = refl
listed-invalid false h = cc

pub invalid-exclusive : (state : MesiState) → is_invalid state ≡ true → has_exclusive state ≡ false
invalid-exclusive invalid h = refl
invalid-exclusive state h = cc

unmarked : (b v : Bool) → v ≡ false → v ≡ (if b then false else v)
unmarked true v h = h
unmarked false v h = refl

or-false : (a b : Bool) → b ≡ false → a ≡ (a || b)
or-false a b h = ground arith

mark-same :
    (b : Bool) (e : Entry) (n : ℕ)
    → (if b then set_sharer e n false else e).sharers n ≡ (if b then false else e.sharers n)
mark-same true e n = update-same e.sharers n false
mark-same false e n = refl

mark-other :
    (b : Bool) (e : Entry) (n i : ℕ)
    → n ≢ i
    → (if b then set_sharer e n false else e).sharers i ≡ e.sharers i
mark-other true e n i h = update-other e.sharers n false i h
mark-other false e n i h = refl

mark-num :
    (b : Bool) (e : Entry) (n : ℕ)
    → (if b then set_sharer e n false else e).num_sharers ≡ e.num_sharers
mark-num true e n = refl
mark-num false e n = refl

mark-excl :
    (b : Bool) (e : Entry) (n : ℕ) → (if b then set_sharer e n false else e).is_excl ≡ e.is_excl
mark-excl true e n = refl
mark-excl false e n = refl

le-larger : (a b c : ℕ) → c ≤ b → c ≤ larger a b
le-larger a b c h = ground arith

module _ {C : Type 0} (t : TopConfig C) (noc_req : Bool) (ch : IsChild t noc_req) where
  -- The entry lists the children that have a copy, and each can follow. Child `k`, which asks
  -- itself, may keep a clean copy.
  pub record Told (k n : ℕ) (type : InvType) (d : Dir C) : Type 0 where
    pub fits : n ≤ 256
    pub okay : (i : ℕ) → i < n → ch.Ok (d.kids i)
    pub clean : (i : ℕ) → i < n → d.entry.sharers i ≡ false → ch.dirty (d.kids i) ≡ false
    pub gone :
        (i : ℕ) → i < n → i ≢ k → d.entry.sharers i ≡ false → is_invalid (t.state (d.kids i)) ≡ true
    pub able : (i : ℕ) → i < n → d.entry.sharers i ≡ true → CanFollow type (t.state (d.kids i))

  -- After the first `n` children.
  pub record Swept (k n : ℕ) (type : InvType) (cycle : ℕ) (d : Dir C) (s : Sent C) : Type 0 where
    pub okay : (i : ℕ) → i < n → ch.Ok (s.dir.kids i)
    pub followed :
        (i : ℕ) → i < n → i ≢ k → Follows type (t.state (d.kids i)) (t.state (s.dir.kids i))
    pub clean : (i : ℕ) → i < n → ch.dirty (s.dir.kids i) ≡ false
    pub kept : (i : ℕ) → i < n → d.entry.sharers i ≡ false → s.dir.kids i ≡ d.kids i
    pub marked :
        (i : ℕ) → i < n → s.dir.entry.sharers i ≡ (if is_inv type then false else d.entry.sharers i)
    pub rest : (i : ℕ) → n ≤ i → s.dir.entry.sharers i ≡ d.entry.sharers i
    pub rest_kids : (i : ℕ) → n ≤ i → s.dir.kids i ≡ d.kids i
    pub same_num : s.dir.entry.num_sharers ≡ d.entry.num_sharers
    pub same_excl : s.dir.entry.is_excl ≡ d.entry.is_excl
    pub sent : s.sent_invs ≡ count n d.entry.sharers
    pub written : s.writeback ≡ any n (λ i. ch.dirty (d.kids i))
    pub later : cycle ≤ s.max_cycle

  start :
      (k : ℕ) (type : InvType) (cycle : ℕ) (d : Dir C)
      → Swept k 0 type cycle d
          (record { dir = d; writeback = false; max_cycle = cycle; sent_invs = 0 })
  unfolding total
  start k type cycle d = record {
    okay = λ i h. absurd (omega arith);
    followed = λ i h. absurd (omega arith);
    kept = λ i h. absurd (omega arith);
    clean = λ i h. absurd (omega arith);
    marked = λ i h. absurd (omega arith);
    rest = λ i h. refl;
    rest_kids = λ i h. refl;
    same_num = refl;
    same_excl = refl;
    sent = refl;
    written = refl;
    later = omega arith;
  }

  pub unowned-dirty :
      (kid : C) → ch.Ok kid → has_exclusive (t.state kid) ≡ false → ch.dirty kid ≡ false
  unowned-dirty kid h e = elim (Bool-cases (ch.dirty kid)) [
    | inl p ↦ let a = ch.dirty_exclusive kid h p in cc
    | inr p ↦ p
  ]

  pub invalid-dirty : (kid : C) → ch.Ok kid → is_invalid (t.state kid) ≡ true → ch.dirty kid ≡ false
  invalid-dirty kid h e = unowned-dirty kid h (invalid-exclusive (t.state kid) e)

  -- A child that is not in the list is passed over.
  passed :
      (k n : ℕ) (type : InvType) (cycle : ℕ) (d : Dir C) (s : Sent C)
      → Told k (suc n) type d
      → d.entry.sharers n ≡ false
      → Swept k n type cycle d s
      → Swept k (suc n) type cycle d s
  unfolding total
  passed k n type cycle d s h e w =
      let u : d.kids n ≡ s.dir.kids n = sym (w.rest_kids n (omega arith)) in
      let dry = h.clean n (omega arith) e in
      record {
        okay = below_suc n w.okay (subst ch.Ok u (h.okay n (omega arith)));
        followed = below_suc n w.followed (λ q.
            subst (λ x. Follows type (t.state (d.kids n)) (t.state x)) u
              (Follows-invalid type (t.state (d.kids n)) (h.gone n (omega arith) q e)));
        kept = below_suc n w.kept (λ q. sym u);
        clean = below_suc n w.clean (subst (λ x. ch.dirty x ≡ false) u dry);
        marked =
            below_suc n w.marked
              (w.rest n (omega arith) ∙ unmarked (is_inv type) (d.entry.sharers n) e);
        rest = λ i p. w.rest i (omega arith);
        rest_kids = λ i p. w.rest_kids i (omega arith);
        same_num = w.same_num;
        same_excl = w.same_excl;
        sent = omega (arith, w.sent, ap bit e);
        written = w.written ∙ or-false (any n (λ i. ch.dirty (d.kids i))) (ch.dirty (d.kids n)) dry;
        later = w.later;
      }

  -- A child in the list is told, and follows.
  told :
      (k n : ℕ) (type : InvType) (cycle src_id : ℕ) (d : Dir C) (s : Sent C)
      → Told k (suc n) type d
      → d.entry.sharers n ≡ true
      → Swept k n type cycle d s
      → (s' : Sent C) × (send_one t type cycle src_id noc_req n s ≡ ok s')
        × Swept k (suc n) type cycle d s'
  unfolding total send_one
  told k n type cycle src_id d s h e w =
      let u : d.kids n ≡ s.dir.kids n = sym (w.rest_kids n (omega arith)) in
      let (kid, resp, call, good, went, dry) =
        ch.follow type n cycle src_id (s.dir.kids n) (subst ch.Ok u (h.okay n (omega arith)))
          (subst (λ x. CanFollow type (t.state x)) u (h.able n (omega arith) e)) in
      let old : (i : ℕ) → n ≢ i → s.dir.kids i ≡ update s.dir.kids n kid i =
        λ i p. sym (update-other s.dir.kids n kid i p) in
      let new : kid ≡ update s.dir.kids n kid n = sym (update-same s.dir.kids n kid) in
      let below : (i : ℕ) → i < n → n ≢ i = λ i p q. absurd (omega arith) in
      (
        record {
          dir = record {
            entry = if is_inv type then set_sharer s.dir.entry n false else s.dir.entry;
            kids = update s.dir.kids n kid;
          };
          writeback = s.writeback || ch.dirty (s.dir.kids n);
          max_cycle = larger resp s.max_cycle;
          sent_invs = s.sent_invs + 1;
        },
        rw (call) refl,
        record {
          okay =
              below_suc n (λ i p. subst ch.Ok (old i (below i p)) (w.okay i p))
                (subst ch.Ok new good);
          followed =
              below_suc n
                (λ i p q.
                  subst (λ x. Follows type (t.state (d.kids i)) (t.state x)) (old i (below i p))
                    (w.followed i p q))
                (λ q.
                  subst (λ x. Follows type (t.state (d.kids n)) (t.state x)) new
                    (subst (λ x. Follows type (t.state x) (t.state kid)) (sym u) went));
          kept = below_suc n (λ i p q. sym (old i (below i p)) ∙ w.kept i p q) (λ q. cc);
          clean =
              below_suc n (λ i p. subst (λ x. ch.dirty x ≡ false) (old i (below i p)) (w.clean i p))
                (subst (λ x. ch.dirty x ≡ false) new dry);
          marked =
              below_suc n
                (λ i p. mark-other (is_inv type) s.dir.entry n i (below i p) ∙ w.marked i p)
                (mark-same (is_inv type) s.dir.entry n
                  ∙ ap (λ x. if is_inv type then false else x) (w.rest n (omega arith)));
          rest = λ i p.
              mark-other (is_inv type) s.dir.entry n i (λ q. absurd (omega arith))
              ∙ w.rest i (omega arith);
          rest_kids = λ i p. sym (old i (λ q. absurd (omega arith))) ∙ w.rest_kids i (omega arith);
          same_num = mark-num (is_inv type) s.dir.entry n ∙ w.same_num;
          same_excl = mark-excl (is_inv type) s.dir.entry n ∙ w.same_excl;
          sent = omega (arith, w.sent, ap bit e);
          written =
              ap (λ b. b || ch.dirty (s.dir.kids n)) w.written
              ∙ ap (λ x. any n (λ i. ch.dirty (d.kids i)) || ch.dirty x) (sym u);
          later = le-larger resp s.max_cycle cycle w.later;
        },
      )

  shorter : (k n : ℕ) (type : InvType) (d : Dir C) → Told k (suc n) type d → Told k n type d
  shorter k n type d h = record {
    fits = let f = h.fits in omega arith;
    okay = λ i p. h.okay i (omega arith);
    clean = λ i p. h.clean i (omega arith);
    gone = λ i p. h.gone i (omega arith);
    able = λ i p. h.able i (omega arith);
  }

  -- The loop succeeds, and every child that had a copy has followed.
  pub send_each-Swept :
      (k n : ℕ) (type : InvType) (cycle src_id : ℕ) (d : Dir C)
      → Told k n type d
      → (s : Sent C) × (send_each t n type cycle src_id noc_req
            (record { dir = d; writeback = false; max_cycle = cycle; sent_invs = 0 })
          ≡ ok s)
        × Swept k n type cycle d s
  unfolding send_each
  send_each-Swept k zero type cycle src_id d h = (_, refl, start k type cycle d)
  send_each-Swept k (suc n) type cycle src_id d h =
      let (s, run, w) = send_each-Swept k n type cycle src_id d (shorter k n type d h) in
      let inside : ltb n 256 ≡ true = lt→ltb n 256 (h.fits) in
      elim (Bool-cases (d.entry.sharers n)) [
        | inl e ↦
            let (s', run', w') = told k n type cycle src_id d s h e w in
            (s', rw (run, inside, w.rest n (omega arith), e, run') refl, w')
        | inr e ↦
            (s, rw (run, inside, w.rest n (omega arith), e) refl, passed k n type cycle d s h e w)
      ]
