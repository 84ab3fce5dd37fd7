-- ===== src/Coherence/Top/Serve.antt =====
-- The accesses of the children keep the directory's invariant.
use bzsim.Base.{
  ℕ, ◌+◌, ◌-◌, ◌%◌, ◌^◌, ◌≤◌, ◌<◌, ◌≡◌, ◌≢◌, refl, sym, ap, ◌∙◌, subst, Bool, true, false, not,
  ◌&&◌, Bool-cases, inl, inr, ok, count, total-change, total-zero, total_mono, total-const, arith,
  bit, ltb, lt→ltb, update, update-same, update-other, split,
}
use bzsim.Coherence.Permission.{Rises-modified}
use bzsim.Coherence.{MesiState, invalid, modified, is_invalid, has_exclusive}
use bzsim.Coherence.Top.{
  TopConfig, Dir, Entry, is_exclusive, set_sharer, one_less, get_exclusive, take_out,
}
use bzsim.Coherence.Top.Children.{IsChild}
use bzsim.Coherence.Top.Sweep.{unowned-dirty}
use bzsim.Coherence.Top.Directory.{
  size, IsDirectory, IsAsked, dirty_below, send_inv-Cleared, IsDirectory-IsAsked,
}

-- One mark of a list changes: the count changes with it.
pub count-update :
    (n : ℕ) (p : ℕ → Bool) (c : ℕ) (b : Bool)
    → c < n
    → count n (update p c b) + bit (p c) ≡ count n p + bit b
count-update n p c b h = omega (
  arith,
  total-change n (λ i. bit (p i)) (λ i. bit (update p c b i)) c h
      (λ i q. ap bit (update-other p c b i (λ r. q (sym r)))),
  ap bit (update-same p c b),
)

pub count_le : (n : ℕ) (p : ℕ → Bool) → count n p ≤ n
count_le n p =
    omega (arith, total_mono n (λ i. bit (p i)) (λ i. 1) (λ i h. ground arith), total-const n 1)

module _ {C : Type 0} (t : TopConfig C) (noc_req : Bool) (ch : IsChild t noc_req) where
  -- The mark and the state of one child change together.
  pub change :
      (d : Dir C) (c k : ℕ) (x b : Bool) (st : MesiState)
      → c < size t noc_req
      → size t noc_req ≤ 256
      → ((i : ℕ) → i < size t noc_req → i ≢ c → ch.Ok (d.kids i))
      → ch.Ok (t.set_state st (d.kids c))
      → ((i : ℕ)
          → i < size t noc_req
          → i ≢ c
          → d.entry.sharers i ≡ not (is_invalid (t.state (d.kids i))))
      → b ≡ not (is_invalid st)
      → k + bit (d.entry.sharers c) ≡ count (size t noc_req) d.entry.sharers + bit b
      → (x ≡ true → k ≤ 1)
      → ((i : ℕ)
          → i < size t noc_req
          → i ≢ c
          → has_exclusive (t.state (d.kids i)) ≡ (x && d.entry.sharers i))
      → has_exclusive st ≡ (x && b)
      → IsDirectory t noc_req ch (record {
        entry = record { num_sharers = k; sharers = update d.entry.sharers c b; is_excl = x };
        kids = update d.kids c (t.set_state st (d.kids c));
      })
  change d c k x b st inside fits okay good listed mark num single excl mine =
      let kid = update d.kids c (t.set_state st (d.kids c)) in
      let old : (i : ℕ) → i ≢ c → kid i ≡ d.kids i =
        λ i p. update-other d.kids c (t.set_state st (d.kids c)) i (λ q. p (sym q)) in
      let oldm : (i : ℕ) → i ≢ c → update d.entry.sharers c b i ≡ d.entry.sharers i =
        λ i p. update-other d.entry.sharers c b i (λ q. p (sym q)) in
      let new : t.set_state st (d.kids c) ≡ kid c =
        sym (update-same d.kids c (t.set_state st (d.kids c))) in
      let newm : update d.entry.sharers c b c ≡ b = update-same d.entry.sharers c b in
      let at : t.state (kid c) ≡ st = ap t.state (sym new) ∙ ch.state_set st (d.kids c) in
      record {
        fits = fits;
        okay = split c (λ i h p. subst ch.Ok (sym (old i p)) (okay i h p)) (subst ch.Ok new good);
        listed =
            split c
              (λ i h p.
                oldm i p ∙ listed i h p ∙ ap (λ y. not (is_invalid (t.state y))) (sym (old i p)))
              (newm ∙ mark ∙ ap (λ y. not (is_invalid y)) (sym at));
        counted = omega (arith, num, count-update (size t noc_req) d.entry.sharers c b inside);
        single = single;
        excl =
            split c
              (λ i h p.
                ap (λ y. has_exclusive (t.state y)) (old i p)
                ∙ excl i h p
                ∙ ap (λ y. x && y) (sym (oldm i p)))
              (ap has_exclusive at ∙ mine ∙ ap (λ y. x && y) (sym newm));
      }

not-both : (a b : Bool) → (a && b) ≡ false → b ≡ true → a ≡ false
not-both a b h e = ground arith

and-true : (a b : Bool) → b ≡ true → (a && b) ≡ a
and-true a b h = ground arith

not_exclusive : (e : Entry) → e.is_excl ≡ false → is_exclusive e ≡ false
not_exclusive e h = ground arith

pub less_one : (n k : ℕ) → n ≤ 256 → n ≡ k + 1 → (n + 2 ^ 32 - 1) % 2 ^ 32 ≡ k
less_one n k h e = omega arith

pub plus_one : (n : ℕ) → n ≤ 256 → (n + 1) % 2 ^ 32 ≡ n + 1
plus_one n h = omega arith

module _ {C : Type 0} (t : TopConfig C) (ch : IsChild t false) where
  pub in_range :
      (d : Dir C) (c : ℕ) → IsDirectory t false ch d → c < t.children_size → ltb c 256 ≡ true
  in_range d c g h = lt→ltb c 256 (let f = g.fits in omega arith)

  -- The mark of a child that asks for exclusive permission is taken away first.
  take_out-IsAsked :
      (d : Dir C) (c : ℕ)
      → IsDirectory t false ch d
      → c < t.children_size
      → has_exclusive (t.state (d.kids c)) ≡ false
      → (e : Entry) × (take_out t c false d.entry ≡ ok e)
        × IsAsked t false ch c (record d { entry = e })
        × (e.sharers c ≡ false)
  unfolding take_out
  take_out-IsAsked d c g h x = elim (Bool-cases (d.entry.sharers c)) [
    | inr e ↦ (d.entry, rw (e) refl, IsDirectory-IsAsked t false ch c d g, e)
    | inl e ↦
        let lower = not-both d.entry.is_excl (d.entry.sharers c) (sym (g.excl c h) ∙ x) e in
        let a = IsDirectory-IsAsked t false ch c d g in
        let m = update d.entry.sharers c false in
        let old : (i : ℕ) → i ≢ c → m i ≡ d.entry.sharers i =
          λ i p. update-other d.entry.sharers c false i (λ q. p (sym q)) in
        let few : d.entry.num_sharers ≤ 256 =
          omega (arith, g.counted, count_le t.children_size d.entry.sharers, g.fits) in
        let new : m c ≡ false = update-same d.entry.sharers c false in
        (
          one_less (set_sharer d.entry c false),
          rw (e, not_exclusive d.entry lower) refl,
          record {
            fits = g.fits;
            okay = g.okay;
            able = split c (λ i p q r. a.able i p (sym (old i q) ∙ r)) (λ r. cc);
            clean =
                split c (λ i p q r. a.clean i p (sym (old i q) ∙ r))
                  (λ r. unowned-dirty t false ch (d.kids c) (g.okay c h) x);
            gone = λ i p q r. a.gone i p q (sym (old i q) ∙ r);
            counted = less_one d.entry.num_sharers (count t.children_size m) few (
                omega (
                  arith,
                  g.counted,
                  count-update t.children_size d.entry.sharers c false h,
                  ap bit e,
                ));
          },
          new,
        )
  ]

  -- GETX: the child gets the line modified, and no other child has a copy.
  pub get_exclusive-IsDirectory :
      (d : Dir C) (c cycle src_id : ℕ)
      → IsDirectory t false ch d
      → c < t.children_size
      → has_exclusive (t.state (d.kids c)) ≡ false
      → (d' : Dir C) × (resp : ℕ) × (get_exclusive t c c true cycle src_id false d
          ≡ ok (d', dirty_below t false ch d, resp))
        × IsDirectory t false ch d'
        × (t.state (d'.kids c) ≡ modified)
        × ((i : ℕ) → i < t.children_size → i ≢ c → t.state (d'.kids i) ≡ invalid)
        × (cycle ≤ resp)
  unfolding get_exclusive
  get_exclusive-IsDirectory d c cycle src_id g h x =
      let (e, took, asked, free) = take_out-IsAsked d c g h x in
      let (d1, resp, sent, q) =
        send_inv-Cleared t false ch c cycle src_id (record d { entry = e }) asked in
      let same : d1.kids c ≡ d.kids c = q.kept c h free in
      let st = t.set_state modified (d1.kids c) in
      (
        record {
          entry = record {
            num_sharers = (d1.entry.num_sharers + 1) % 2 ^ 32;
            sharers = update d1.entry.sharers c true;
            is_excl = true;
          };
          kids = update d1.kids c st;
        },
        resp,
        rw (in_range d c g h, took, sent, q.empty) refl,
        change t false ch d1 c ((d1.entry.num_sharers + 1) % 2 ^ 32) true true modified h g.fits
            (λ i p r. q.okay i p)
            (ch.raise modified (d1.kids c) (q.okay c h) (Rises-modified (t.state (d1.kids c))))
            (λ i p r. q.off i p ∙ ap (λ y. not (is_invalid y)) (sym (q.gone i p r))) refl
            (let z = q.empty in
              omega (
                arith,
                ap bit (q.off c h),
                total-zero t.children_size (λ i. bit (d1.entry.sharers i))
                    (λ i p. ap bit (q.off i p)),
              ))
            (λ y. let z = q.empty in omega arith)
            (λ i p r. ap has_exclusive (q.gone i p r) ∙ sym (q.off i p)) refl,
        ap t.state (update-same d1.kids c st) ∙ ch.state_set modified (d1.kids c),
        λ i p r. ap t.state (update-other d1.kids c st i (λ y. r (sym y))) ∙ q.gone i p r,
        q.later,
      )
