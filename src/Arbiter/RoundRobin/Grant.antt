-- ===== src/Arbiter/RoundRobin/Grant.antt =====
-- Which request a round-robin arbiter grants.
use bzsim.Base.{
  ℕ, ◌+◌, ◌⊎◌, ◌∙◌, sym, subst, ◌<◌, ◌≡◌, ◌≢◌, refl, ap, inl, inr, ℤ, pos, negsuc, true, false,
  count, ok, arith, Bool-cases, update, total-change, le-total, total-zero, bit,
}
use bzsim.Arbiter
use bzsim.Arbiter.{Entry}
use bzsim.Arbiter.RoundRobin.{RoundRobin, position, supersedes, note, add_request}
use bzsim.Arbiter.RoundRobin.Order.{
  IsAhead, IsAhead-trans, supersedes-IsAhead, not-supersedes-IsAhead,
}

-- Input `w` holds a request, and no other request comes before it.
pub record IsFirst (r : RoundRobin) (w : ℕ) : Type 0 where
  pub within : w < r.size
  pub requested : (r.request w).valid ≡ true
  pub first :
      (j : ℕ)
      → j < r.size
      → (r.request j).valid ≡ true
      → IsAhead
          (r.request w).pri
          (position (pos w) r.pointer r.size)
          (r.request j).pri
          (position (pos j) r.pointer r.size)

-- `best_input` and `highest_pri` describe the first request, or there is none.
abbrev pub BestIs : RoundRobin → ℤ → Type 0
BestIs r (pos w) = IsFirst r w × (r.highest_pri ≡ (r.request w).pri)
BestIs r (negsuc k) = (k ≡ 0) × ((j : ℕ) → j < r.size → (r.request j).valid ≡ false)

abbrev pub requests : RoundRobin → ℕ
requests r = count r.size (λ i. (r.request i).valid)

pub record Inv (r : RoundRobin) : Type 0 where
  pub pointer_in : r.pointer < r.size
  pub counted : r.num_reqs ≡ requests r
  pub best : BestIs r r.best_input

pub requests-zero :
    (r : RoundRobin) → ((j : ℕ) → j < r.size → (r.request j).valid ≡ false) → requests r ≡ 0
requests-zero r h = total-zero r.size _ (λ j p. ap bit (h j p))

requests-pos : (r : RoundRobin) (j : ℕ) → j < r.size → (r.request j).valid ≡ true → 0 < requests r
requests-pos r j p h = omega (arith, le-total r.size (λ i. bit (r.request i).valid) j p, ap bit h)

-- What a call that succeeds has done to an arbiter that noted the request.
abbrev pub stored : RoundRobin → ℕ → ℤ → ℤ → RoundRobin
stored r input id pri = record r {
  base = record r.base {
    num_reqs = r.num_reqs + 1;
    request = update r.request input (record { valid = true; id = id; pri = pri });
  };
}

pub add_request-stored :
    (r : RoundRobin) (input : ℕ) (id pri : ℤ) {s : RoundRobin}
    → add_request r input id pri ≡ ok s
    → (input < r.size)
      × ((r.request input).valid ≡ false)
      × (s ≡ stored (note r input pri) input id pri)
unfolding add_request Arbiter.add_request note
add_request-stored r input id pri h = ground arith

note-first :
    (r : RoundRobin) (input : ℕ) (pri : ℤ)
    → r.num_reqs ≡ 0
    → (r.request input).valid ≡ false
    → note r input pri
      ≡ record r { base = record r.base { highest_pri = pri; best_input = pos input } }
unfolding note
note-first r input pri h k = ground arith

-- A new request that comes before all others.
take-IsFirst :
    (r : RoundRobin) (input : ℕ) (id pri : ℤ)
    → input < r.size
    → ((j : ℕ)
        → j < r.size
        → (r.request j).valid ≡ true
        → IsAhead pri
            (position (pos input) r.pointer r.size)
            (r.request j).pri
            (position (pos j) r.pointer r.size))
    → IsFirst (stored r input id pri) input
take-IsFirst r input id pri h ahead = record {
  within = h;
  requested = ground arith;
  first = λ j p v. ground (arith, ahead j);
}

-- A new request that does not come before the first one.
keep-IsFirst :
    (r : RoundRobin) (input b : ℕ) (id pri : ℤ)
    → (r.request input).valid ≡ false
    → IsFirst r b
    → IsAhead
        (r.request b).pri
        (position (pos b) r.pointer r.size)
        pri
        (position (pos input) r.pointer r.size)
    → IsFirst (stored r input id pri) b
keep-IsFirst r input b id pri new f ahead = record {
  within = f.within;
  requested = ground (arith, f.requested);
  first = λ j p v. ground (arith, f.first j, f.requested);
}

-- The counters after a request is stored.
stored-counted :
    (r : RoundRobin) (input : ℕ) (id pri : ℤ)
    → input < r.size
    → (r.request input).valid ≡ false
    → r.num_reqs ≡ requests r
    → (stored r input id pri).num_reqs ≡ requests (stored r input id pri)
stored-counted r input id pri h new c = omega (arith, c, changed, before, ap bit (now))
  where
    after : ℕ → Entry
    after = update r.request input (record { valid = true; id = id; pri = pri })

    changed :
        count r.size (λ i. (after i).valid) + bit (r.request input).valid
        ≡ count r.size (λ i. (r.request i).valid) + bit (after input).valid
    changed =
        total-change r.size (λ i. bit (r.request i).valid) (λ i. bit (after i).valid) input h
          (λ j n. ground arith)

    before : bit (r.request input).valid ≡ 0
    before = ap bit new

    now : (after input).valid ≡ true
    now = ground arith

abbrev taken : RoundRobin → ℕ → ℤ → RoundRobin
taken r input pri = record r { base = record r.base { highest_pri = pri; best_input = pos input } }

note-cases :
    (r : RoundRobin) (input : ℕ) (pri : ℤ) (b : ℕ)
    → r.best_input ≡ pos b
    → r.num_reqs ≢ 0
    → (r.request input).valid ≡ false
    → ((note r input pri ≡ taken r input pri)
        × (supersedes (pos input) pri (pos b) r.highest_pri r.pointer r.size ≡ true))
      ⊎ ((note r input pri ≡ r)
          × (supersedes (pos input) pri (pos b) r.highest_pri r.pointer r.size ≡ false))
unfolding note
note-cases r input pri b e n v =
    elim (Bool-cases (supersedes (pos input) pri (pos b) r.highest_pri r.pointer r.size)) [
      | inl t ↦ inl (ground arith, t)
      | inr f ↦ inr (ground arith, f)
    ]

stored-Inv :
    (r : RoundRobin) (input : ℕ) (id pri : ℤ) (best : ℤ)
    → r.best_input ≡ best
    → Inv r
    → BestIs r best
    → input < r.size
    → (r.request input).valid ≡ false
    → Inv (stored (note r input pri) input id pri)
stored-Inv r input id pri (negsuc k) e inv b h v =
    let none_yet : r.num_reqs ≡ 0 = inv.counted ∙ requests-zero r b.1 in
    rw (note-first r input pri none_yet v) (record {
      pointer_in = inv.pointer_in;
      counted = stored-counted (taken r input pri) input id pri h v inv.counted;
      best =
          (take-IsFirst (taken r input pri) input id pri h (λ j p w. cc (b.1 j p)), ground arith);
    })
stored-Inv r input id pri (pos b) e inv (f, high) h v =
    elim (note-cases r input pri b e
      (ground (arith, inv.counted, requests-pos r b f.within f.requested)) v) [
        | inl (eq, t) ↦ rw eq (record {
          pointer_in = inv.pointer_in;
          counted = stored-counted (taken r input pri) input id pri h v inv.counted;
          best = (
            take-IsFirst (taken r input pri) input id pri h (λ j p w.
                IsAhead-trans pri r.highest_pri (r.request j).pri _ _ _
                  (supersedes-IsAhead (pos input) (pos b) pri r.highest_pri r.pointer r.size t)
                  (rw high (f.first j p w))),
            ground arith,
          );
        })
        | inr (eq, t) ↦ rw eq (record {
          pointer_in = inv.pointer_in;
          counted = stored-counted r input id pri h v inv.counted;
          best = subst (BestIs (stored r input id pri)) (sym e) (
            keep-IsFirst r input b id pri v f (
                rw (← high) (
                  not-supersedes-IsAhead (pos input) (pos b) pri r.highest_pri r.pointer r.size t)),
            ground (arith, f.requested),
          );
        })
      ]

-- A request that `AddRequest` accepts keeps the invariant: the counter is the number of requests, and
-- `_best_input` is the one that comes before all others.
pub add_request-Inv :
    (r s : RoundRobin) (input : ℕ) (id pri : ℤ) → Inv r → add_request r input id pri ≡ ok s → Inv s
add_request-Inv r s input id pri inv h =
    let (within, new, e) = add_request-stored r input id pri h in
    subst Inv (sym e) (stored-Inv r input id pri r.best_input refl inv inv.best within new)
