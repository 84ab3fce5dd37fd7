-- ===== src/Coherence/Top/Directory.antt =====
-- The directory's invariant, and what `sendInvalidates` leaves of a line that has it.
use bzsim.Base.{
  ℕ, zero, suc, ◌≤◌, ◌<◌, ◌==◌, ◌≡◌, ◌≢◌, refl, sym, ap, ap₂, ◌∙◌, Bool, true, false, not, ◌&&◌,
  Bool-cases, and-false, both, inl, inr, ok, ◌>>=◌, count, count-zero, total-ext, arith,
  if◌then◌else◌, bit, ltb, ==-of-eq, eq_of_==,
}
use bzsim.Coherence.{MesiState, invalid, InvType, inv, invx, is_invalid, has_exclusive}
use bzsim.Coherence.Top.{
  TopConfig, Dir, Entry, Sent, is_empty, is_exclusive, settle, send_to_sharers, send_invalidates,
}
use bzsim.Coherence.Top.Children.{IsChild, CanFollow}
use bzsim.Coherence.Top.Sweep.{
  any, Swept, send_each-Swept, invalid-dirty, unowned-dirty, listed-invalid,
}

-- The number of children that a call goes through.
abbrev pub size : {C : Type 0} → TopConfig C → Bool → ℕ
size t noc_req = if noc_req then t.num_grand_children else t.children_size

pub any-false : (n : ℕ) (p : ℕ → Bool) → ((i : ℕ) → i < n → p i ≡ false) → any n p ≡ false
any-false zero p h = refl
any-false (suc n) p h =
    let a = any-false n p (λ i q. h i (omega arith)) in let b = h n (omega arith) in rw (a, b) refl

invalid_of : (state : MesiState) → is_invalid state ≡ true → state ≡ invalid
invalid_of invalid h = refl
invalid_of state h = cc

listed-valid : {a b : Bool} → a ≡ not b → a ≡ true → b ≡ false
listed-valid h e = ground arith

lone : (x : Bool) (n : ℕ) → (n == 1 && x) ≡ false → x ≡ true → n ≤ 1 → n ≡ 0
lone x n h e l = ground arith

exclusive-parts : (e : Entry) → is_exclusive e ≡ true → (e.num_sharers ≡ 1) × (e.is_excl ≡ true)
exclusive-parts e h = (ground arith, ground arith)

one-nonzero : (n : ℕ) → n ≡ 1 → (n == 0) ≡ false
one-nonzero n h = ground arith

module _ {C : Type 0} (t : TopConfig C) (noc_req : Bool) (ch : IsChild t noc_req) where
  -- The entry lists the children with a copy and counts them; if it is exclusive there is at most
  -- one, and it has exclusive permission.
  pub record IsDirectory (d : Dir C) : Type 0 where
    pub fits : size t noc_req ≤ 256
    pub okay : (i : ℕ) → i < size t noc_req → ch.Ok (d.kids i)
    pub listed :
        (i : ℕ) → i < size t noc_req → d.entry.sharers i ≡ not (is_invalid (t.state (d.kids i)))
    pub counted : d.entry.num_sharers ≡ count (size t noc_req) d.entry.sharers
    pub single : d.entry.is_excl ≡ true → d.entry.num_sharers ≤ 1
    pub excl :
        (i : ℕ)
        → i < size t noc_req
        → has_exclusive (t.state (d.kids i)) ≡ (d.entry.is_excl && d.entry.sharers i)

  -- The same of a line that child `k` asks for, which may itself keep a clean copy.
  pub record IsAsked (k : ℕ) (d : Dir C) : Type 0 where
    pub fits : size t noc_req ≤ 256
    pub okay : (i : ℕ) → i < size t noc_req → ch.Ok (d.kids i)
    pub able :
        (i : ℕ)
        → i < size t noc_req
        → d.entry.sharers i ≡ true
        → is_invalid (t.state (d.kids i)) ≡ false
    pub clean :
        (i : ℕ) → i < size t noc_req → d.entry.sharers i ≡ false → ch.dirty (d.kids i) ≡ false
    pub gone :
        (i : ℕ)
        → i < size t noc_req
        → i ≢ k
        → d.entry.sharers i ≡ false
        → is_invalid (t.state (d.kids i)) ≡ true
    pub counted : d.entry.num_sharers ≡ count (size t noc_req) d.entry.sharers

  -- After INV: nobody is listed, and no child but `k` has a copy.
  pub record Cleared (k cycle : ℕ) (d d' : Dir C) (resp : ℕ) : Type 0 where
    pub okay : (i : ℕ) → i < size t noc_req → ch.Ok (d'.kids i)
    pub gone : (i : ℕ) → i < size t noc_req → i ≢ k → t.state (d'.kids i) ≡ invalid
    pub kept : (i : ℕ) → i < size t noc_req → d.entry.sharers i ≡ false → d'.kids i ≡ d.kids i
    pub clean : (i : ℕ) → i < size t noc_req → ch.dirty (d'.kids i) ≡ false
    pub off : (i : ℕ) → i < size t noc_req → d'.entry.sharers i ≡ false
    pub empty : d'.entry.num_sharers ≡ 0
    pub later : cycle ≤ resp

  -- After INVX: a directory in which nobody has exclusive permission, nobody has lost the line, and
  -- no modified data is below.
  pub record Lowered (cycle : ℕ) (d d' : Dir C) (resp : ℕ) : Type 0 where
    pub directory : IsDirectory d'
    pub same :
        (i : ℕ)
        → i < size t noc_req
        → is_invalid (t.state (d'.kids i)) ≡ is_invalid (t.state (d.kids i))
    pub lowered : (i : ℕ) → i < size t noc_req → has_exclusive (t.state (d'.kids i)) ≡ false
    pub clean : (i : ℕ) → i < size t noc_req → ch.dirty (d'.kids i) ≡ false
    pub not_exclusive : is_exclusive d'.entry ≡ false
    pub later : cycle ≤ resp

  -- Modified data is below the line.
  abbrev pub dirty_below : Dir C → Bool
  dirty_below d = any (size t noc_req) (λ i. ch.dirty (d.kids i))

  synced-if : (b : Bool) (src_id cycle : ℕ) → (if b then t.sync src_id cycle else ok tt) ≡ ok tt
  synced-if true src_id cycle = ch.synced src_id cycle
  synced-if false src_id cycle = refl

  -- A child that is not listed has no copy.
  unlisted :
      (d : Dir C)
      → IsDirectory d
      → (i : ℕ) → i < size t noc_req
      → d.entry.sharers i ≡ false
      → is_invalid (t.state (d.kids i)) ≡ true
  unlisted d g i h e = listed-invalid (is_invalid (t.state (d.kids i))) (sym (g.listed i h) ∙ e)

  pub IsDirectory-IsAsked : (k : ℕ) (d : Dir C) → IsDirectory d → IsAsked k d
  IsDirectory-IsAsked k d g = record {
    fits = g.fits;
    okay = g.okay;
    able = λ i p q. listed-valid (g.listed i p) q;
    clean = λ i p q. invalid-dirty t noc_req ch (d.kids i) (g.okay i p) (unlisted d g i p q);
    gone = λ i p r q. unlisted d g i p q;
    counted = g.counted;
  }

  -- The part that all calls share: the loop, the event and the count.
  send_to_sharers-Swept :
      (k : ℕ) (type : InvType) (cycle src_id : ℕ) (d : Dir C)
      → IsAsked k d
      → ((i : ℕ)
          → i < size t noc_req
          → d.entry.sharers i ≡ true
          → CanFollow type (t.state (d.kids i)))
      → (s : Sent C) × (send_to_sharers t type cycle src_id noc_req d ≡ (
          settle type s.dir.entry >>= λ e.
          ok (record s.dir { entry = e }, s.writeback, s.max_cycle)))
        × Swept t noc_req ch k (size t noc_req) type cycle d s
  unfolding send_to_sharers
  send_to_sharers-Swept k type cycle src_id d g h =
      let (s, run, w) =
        send_each-Swept t noc_req ch k (size t noc_req) type cycle src_id d
          (record { fits = g.fits; okay = g.okay; clean = g.clean; gone = g.gone; able = h }) in
      let same : s.sent_invs ≡ s.dir.entry.num_sharers = w.sent ∙ sym g.counted ∙ sym w.same_num in
      (
        s,
        rw
            (
              run,
              synced-if (noc_req && ltb 1 s.sent_invs) src_id s.max_cycle,
              ==-of-eq s.sent_invs s.dir.entry.num_sharers same,
            )
            refl,
        w,
      )

  -- INV leaves no copy, and brings up what was modified.
  pub send_inv-Cleared :
      (k cycle src_id : ℕ) (d : Dir C)
      → IsAsked k d
      → (d' : Dir C) × (resp : ℕ) × (send_invalidates t inv cycle src_id noc_req d
          ≡ ok (d', dirty_below d, resp))
        × Cleared k cycle d d' resp
  unfolding send_invalidates settle
  send_inv-Cleared k cycle src_id d g = elim (Bool-cases (is_empty d.entry)) [
    | inl e ↦
        let none = eq_of_== d.entry.num_sharers 0 e in
        let off = count-zero (size t noc_req) d.entry.sharers (sym g.counted ∙ none) in
        let dry : (i : ℕ) → i < size t noc_req → ch.dirty (d.kids i) ≡ false =
          λ i p. g.clean i p (off i p) in
        (
          d,
          cycle,
          rw (e, any-false (size t noc_req) (λ i. ch.dirty (d.kids i)) dry) refl,
          record {
            okay = g.okay;
            gone = λ i p q. invalid_of (t.state (d.kids i)) (g.gone i p q (off i p));
            kept = λ i p q. refl;
            clean = dry;
            off = off;
            empty = none;
            later = omega arith;
          },
        )
    | inr e ↦
        let (s, run, w) = send_to_sharers-Swept k inv cycle src_id d g g.able in
        (
          record s.dir { entry = record s.dir.entry { num_sharers = 0 } },
          s.max_cycle,
          rw (e, run, w.written) refl,
          record {
            okay = w.okay;
            gone = w.followed;
            kept = w.kept;
            clean = w.clean;
            off = w.marked;
            empty = refl;
            later = w.later;
          },
        )
  ]

  -- Where nobody is listed, nobody has a copy.
  pub empty-invalid :
      (d : Dir C)
      → IsDirectory d
      → d.entry.num_sharers ≡ 0
      → (i : ℕ) → i < size t noc_req
      → is_invalid (t.state (d.kids i)) ≡ true
  empty-invalid d g e i h =
      unlisted d g i h (count-zero (size t noc_req) d.entry.sharers (sym g.counted ∙ e) i h)

  -- Where the entry is not exclusive, no child has exclusive permission.
  pub unexclusive :
      (d : Dir C)
      → IsDirectory d
      → is_exclusive d.entry ≡ false
      → (i : ℕ) → i < size t noc_req
      → has_exclusive (t.state (d.kids i)) ≡ false
  unexclusive d g e i h = elim (Bool-cases (d.entry.is_excl && d.entry.sharers i)) [
    | inl p ↦
        let (x, l) = both (d.entry.is_excl) (d.entry.sharers i) p in
        let none = lone d.entry.is_excl d.entry.num_sharers e x (g.single x) in
        let off = count-zero (size t noc_req) d.entry.sharers (sym g.counted ∙ none) i h in cc
    | inr p ↦ g.excl i h ∙ p
  ]

  -- INVX leaves no exclusive copy, and brings up what was modified.
  pub send_invx-Lowered :
      (cycle src_id : ℕ) (d : Dir C)
      → IsDirectory d
      → (d' : Dir C) × (resp : ℕ) × (send_invalidates t invx cycle src_id noc_req d
          ≡ ok (d', dirty_below d, resp))
        × Lowered cycle d d' resp
  unfolding send_invalidates settle
  send_invx-Lowered cycle src_id d g = elim (Bool-cases (is_exclusive d.entry)) [
    | inr e ↦
        let dry : (i : ℕ) → i < size t noc_req → ch.dirty (d.kids i) ≡ false =
          λ i p. unowned-dirty t noc_req ch (d.kids i) (g.okay i p) (unexclusive d g e i p) in
        (
          d,
          cycle,
          rw (e, any-false (size t noc_req) (λ i. ch.dirty (d.kids i)) dry) refl,
          record {
            directory = g;
            same = λ i p. refl;
            lowered = unexclusive d g e;
            clean = dry;
            not_exclusive = e;
            later = omega arith;
          },
        )
    | inl e ↦
        let (one, excl) = exclusive-parts d.entry e in
        let (s, run, w) =
          send_to_sharers-Swept (size t noc_req) invx cycle src_id d
            (IsDirectory-IsAsked (size t noc_req) d g) (λ i p q. g.excl i p ∙ ap₂ ◌&&◌ excl q) in
        let other : (i : ℕ) → i < size t noc_req → i ≢ size t noc_req =
          λ i p q. absurd (omega arith) in
        (
          record s.dir { entry = record s.dir.entry { is_excl = false } },
          s.max_cycle,
          rw
              (
                e,
                one-nonzero d.entry.num_sharers one,
                run,
                w.same_excl,
                excl,
                w.same_num,
                one,
                w.written,
              )
              refl,
          record {
            directory = record {
              fits = g.fits;
              okay = w.okay;
              listed =
                  λ i p. w.marked i p ∙ g.listed i p ∙ ap not (sym (w.followed i p (other i p)).0);
              counted =
                  w.same_num
                  ∙ g.counted
                  ∙ sym (
                      total-ext (size t noc_req) (λ i. bit (s.dir.entry.sharers i))
                        (λ i. bit (d.entry.sharers i)) (λ i p. ap bit (w.marked i p)));
              single = λ x. cc;
              excl = λ i p. (w.followed i p (other i p)).1;
            };
            same = λ i p. (w.followed i p (other i p)).0;
            lowered = λ i p. (w.followed i p (other i p)).1;
            clean = w.clean;
            not_exclusive = and-false (s.dir.entry.num_sharers == 1);
            later = w.later;
          },
        )
  ]
