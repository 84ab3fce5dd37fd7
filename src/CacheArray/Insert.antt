-- ===== src/CacheArray/Insert.antt =====
-- `preinsert` and `postinsert` of `SetAssocArray`: what they do to the addresses in the array.
use bzsim.Base.{
  ℕ, zero, suc, ◌+◌, ◌^◌, ◌≤◌, ◌<◌, ◌≡◌, ◌≢◌, inl, inr, refl, sym, ℤ, pos, negsuc, to_int, Option,
  none, some, false, List, length, ◌∷◌, ◌==◌, if◌then◌else◌, update, update-same, update-other,
  arith, Bool-cases, Option-cases, eq_of_==, ==-of-eq, subst, ap, ok, ◌∙◌,
}
use bzsim.Replacement.{Lines, ReplPolicy, IsPolicy, IsCand}
use bzsim.CacheArray.{SetAssoc, first, line_id, lookup, set_assoc_cands, preinsert, postinsert}
use bzsim.CacheArray.Lookup.{
  Scanned, line_id-Scanned, IsPlaced, first-lt, line_id-found, line_id-missing, missing_everywhere,
}

IsCand-lt : (n b w : ℕ) → IsCand w (set_assoc_cands n b) → (b ≤ w) × (w < b + n)
unfolding set_assoc_cands
IsCand-lt zero b w h = absurd h
IsCand-lt (suc n) b w (inl e) = (omega arith, omega arith)
IsCand-lt (suc n) b w (inr h) = omega (arith, IsCand-lt n (suc b) w h)

length-cands : (n b : ℕ) → length (set_assoc_cands n b) ≡ n
unfolding set_assoc_cands
length-cands zero b = refl
length-cands (suc n) b = ap suc (length-cands n (suc b))

cands_shape :
    (n b : ℕ) → 0 < n → (rest : List ℕ) × (set_assoc_cands n b ≡ b ∷ rest) × (length rest < n)
unfolding set_assoc_cands
cands_shape zero b h = absurd (omega arith)
cands_shape (suc n) b h = (set_assoc_cands n (suc b), refl, omega (arith, length-cands n (suc b)))

to_int_small : (n : ℕ) → n < 2 ^ 31 → to_int n ≡ pos n
unfolding to_int
to_int_small n h = ground arith

module _ {S : Type 0} (hash : ℕ → ℕ → ℕ) (p : ReplPolicy S) where
  -- What `lookup` returns, by what it has found.
  as_int : Option ℕ → ℤ
  as_int none = negsuc 0
  as_int (some id) = to_int id

  lookup-as_int :
      (s : SetAssoc S) (a : ℕ) → (lookup hash p s a false).1 ≡ as_int (line_id hash p s a)
  unfolding lookup as_int
  lookup-as_int s a = elim (Option-cases (line_id hash p s a)) [
    | inl e ↦ rw (e, lookup) refl
    | inr (id, e) ↦ rw (e, lookup) refl
  ]

  -- The array after a replacement, and what stays as it was.
  module _ (s : SetAssoc S) (t : S) (a c : ℕ) where
    after : SetAssoc S
    after = postinsert hash p (record s { rp = t }) a c

    array-after : (j : ℕ) → after.array j ≡ update s.array c a j
    unfolding after postinsert
    array-after j = refl

    first-after : (x : ℕ) → first hash p after x ≡ first hash p s x
    unfolding after postinsert first
    first-after x = refl

    num_lines-after : after.num_lines ≡ s.num_lines
    unfolding after postinsert
    num_lines-after = refl

    assoc-after : after.assoc ≡ s.assoc
    unfolding after postinsert
    assoc-after = refl

    -- A line that is not the replaced one, and the replaced one.
    kept : (j : ℕ) → c ≢ j → after.array j ≡ s.array j
    kept j ne = array-after j ∙ update-other s.array c a j ne

    placed : after.array c ≡ a
    placed = array-after c ∙ update-same s.array c a

    home-after :
        IsPlaced hash p s
        → c < s.num_lines
        → (first hash p s a ≤ c) × (c < first hash p s a + s.assoc)
        → (id : ℕ) → id < s.num_lines
        → after.array id ≢ 0
        → (first hash p after (after.array id) ≤ id)
          × (id < first hash p after (after.array id) + s.assoc)
    home-after i lt inside id h ne = elim (Bool-cases (c == id)) [
      | inl e ↦
          subst
            (λ x.
              (first hash p after (after.array x) ≤ x)
              × (x < first hash p after (after.array x) + s.assoc))
            (eq_of_== c id e)
            (let q = ap (first hash p after) placed ∙ first-after a in
              (omega (arith, q, inside.0), omega (arith, q, inside.1)))
      | inr e ↦
          let other = kept id (λ r. let f = ==-of-eq c id r in cc) in
          let q = ap (first hash p after) other ∙ first-after (s.array id) in
          let (l, u) = i.home id h (λ z. ne (other ∙ z)) in
          (omega (arith, q, l), omega (arith, q, u))
    ]

    once-after :
        IsPlaced hash p s
        → ((id : ℕ) → id < s.num_lines → s.array id ≢ a)
        → (x y : ℕ) → x < s.num_lines
        → y < s.num_lines
        → after.array x ≢ 0
        → after.array x ≡ after.array y
        → x ≡ y
    once-after i free x y hx hy ne q = elim (Bool-cases (c == x)) [
      | inl ex ↦ elim (Bool-cases (c == y)) [
        | inl ey ↦ sym (eq_of_== c x ex) ∙ eq_of_== c y ey
        | inr ey ↦
            let here = ap (λ j. after.array j) (eq_of_== c x ex) in
            absurd (free y hy (sym (kept y (differs y ey)) ∙ sym q ∙ sym here ∙ placed))
      ]
      | inr ex ↦ elim (Bool-cases (c == y)) [
        | inl ey ↦
            let here = ap (λ j. after.array j) (eq_of_== c y ey) in
            absurd (free x hx (sym (kept x (differs x ex)) ∙ q ∙ sym here ∙ placed))
        | inr ey ↦
            let u = kept x (differs x ex) in
            i.once x y hx hy (λ z. ne (u ∙ z)) (sym u ∙ q ∙ kept y (differs y ey))
      ]
    ]
      where
        differs : (j : ℕ) → (c == j) ≡ false → c ≢ j
        differs j e r = let f = ==-of-eq c j r in cc

    after-IsPlaced :
        IsPlaced hash p s
        → c < s.num_lines
        → (first hash p s a ≤ c) × (c < first hash p s a + s.assoc)
        → ((id : ℕ) → id < s.num_lines → s.array id ≢ a)
        → IsPlaced hash p after
    unfolding after postinsert
    after-IsPlaced i lt inside free = record {
      sized = i.sized;
      masked = i.masked;
      some_way = i.some_way;
      narrow = i.narrow;
      home = home-after i lt inside;
      once = once-after i free;
    }

    within-after : (x : ℕ) → x < s.num_lines → x < after.num_lines
    within-after x h = omega (arith, num_lines-after)

    -- What holds no longer, or held nowhere, is not found.
    gone :
        (b : ℕ)
        → a ≢ b
        → ((x : ℕ) → x < s.num_lines → c ≢ x → s.array x ≢ b)
        → (x : ℕ) → x < after.num_lines
        → after.array x ≢ b
    gone b ne f x h q = elim (Bool-cases (c == x)) [
      | inl e ↦ absurd (ne (sym placed ∙ ap (λ j. after.array j) (eq_of_== c x e) ∙ q))
      | inr e ↦
          let d : c ≢ x = λ r. let g = ==-of-eq c x r in cc in
          absurd (f x (omega (arith, num_lines-after)) d (sym (kept x d) ∙ q))
    ]

    others-after :
        IsPlaced hash p s
        → IsPlaced hash p after
        → c < s.num_lines
        → (b : ℕ) → b ≢ 0
        → b ≢ a
        → line_id hash p after b ≡ (if b == s.array c then none else line_id hash p s b)
    others-after i j lt b nb ne = elim (Bool-cases (b == s.array c)) [
      | inl e ↦ rw (e) (
          line_id-missing hash p after b j (
            gone b (λ r. ne (sym r))
              λ x h d q.
                d (i.once c x lt h (λ z. nb (eq_of_== b _ e ∙ z)) (sym (eq_of_== b _ e) ∙ sym q))))
      | inr e ↦ rw (e) (go e (line_id hash p s b) refl (line_id-Scanned hash p s b))
    ]
      where
        go :
            (b == s.array c) ≡ false
            → (o : Option ℕ) → line_id hash p s b ≡ o
            → Scanned s.array (first hash p s b) s.assoc b o
            → line_id hash p after b ≡ line_id hash p s b
        go v none e f =
            line_id-missing hash p after b j
              (gone b (λ r. ne (sym r)) λ x h d. missing_everywhere hash p s b i nb e x h)
            ∙ sym e
        go v (some k) e (l, u, q) =
            let d : c ≢ k =
              λ r. let g = ==-of-eq b (s.array c) (sym q ∙ sym (ap s.array r)) in cc in
            let h : k < s.num_lines = omega (arith, first-lt hash p s b i) in
            line_id-found hash p after b k j nb (within-after k h) (kept k d ∙ q) ∙ sym e

    -- Where an address is found afterwards.
    line_id-after :
        IsPlaced hash p s
        → c < s.num_lines
        → (first hash p s a ≤ c) × (c < first hash p s a + s.assoc)
        → a ≢ 0
        → line_id hash p s a ≡ none
        → (b : ℕ) → b ≢ 0
        → line_id hash p after b
          ≡ (if b == a then some c else if b == s.array c then none else line_id hash p s b)
    line_id-after i lt inside nz miss b nb =
        let j = after-IsPlaced i lt inside (missing_everywhere hash p s a i nz miss) in
        elim (Bool-cases (b == a)) [
          | inl e ↦ rw (e) (
              line_id-found hash p after b c j nb (within-after c lt)
                (placed ∙ sym (eq_of_== b a e)))
          | inr e ↦ rw (e) (others-after i j lt b nb (λ r. let g = ==-of-eq b a r in cc))
        ]

    lookup-after :
        IsPlaced hash p s
        → c < s.num_lines
        → (first hash p s a ≤ c) × (c < first hash p s a + s.assoc)
        → a ≢ 0
        → line_id hash p s a ≡ none
        → (b : ℕ) → b ≢ 0
        → (lookup hash p after b false).1 ≡ (
            if b == a
            then pos c
            else if b == s.array c
            then negsuc 0
            else (lookup hash p s b false).1)
    unfolding as_int
    lookup-after i lt inside nz miss b nb =
        let e = line_id-after i lt inside nz miss b nb in
        rw (lookup-as_int after b, e, lookup-as_int s b)
          (elim (Bool-cases (b == a)) [
            | inl x ↦ rw (x) (to_int_small c (omega (arith, i.narrow)))
            | inr x ↦ elim (Bool-cases (b == s.array c)) [
              | inl y ↦ rw (x, y) refl
              | inr y ↦ rw (x, y) refl
            ]
          ])

  -- A line that is not 0 and not in the array is inserted: `preinsert` succeeds and chooses a line of
  -- the array, and with `postinsert` the array is well-formed again and the policy ready. From then
  -- on `lookup` finds the new address at this line, no longer finds the address that the line held
  -- and that `preinsert` returned, and finds every other address but 0 where it found it before.
  pub insert_lem :
      (Ready Busy : S → Type 0) (lines : Lines) (s : SetAssoc S) (a : ℕ)
      → IsPolicy p s.assoc Ready Busy
      → Ready s.rp
      → IsPlaced hash p s
      → a ≢ 0
      → line_id hash p s a ≡ none
      → (c : ℕ) × (t : S) × (preinsert hash p lines s a ≡ ok (record s { rp = t }, c, s.array c))
        × (c < s.num_lines)
        × IsPlaced hash p (postinsert hash p (record s { rp = t }) a c)
        × Ready (postinsert hash p (record s { rp = t }) a c).rp
        × ((b : ℕ)
            → b ≢ 0
            → (lookup hash p (postinsert hash p (record s { rp = t }) a c) b false).1 ≡ (
                if b == a
                then pos c
                else if b == s.array c
                then negsuc 0
                else (lookup hash p s b false).1))
  unfolding preinsert postinsert after
  insert_lem Ready Busy lines s a law ready i nz miss =
      let (rest, shape, short) = cands_shape s.assoc (first hash p s a) i.some_way in
      let (c, t, e, among, busy) =
        law.rank-Busy lines s.rp (first hash p s a) rest
          (omega (arith, first-lt hash p s a i, i.narrow)) (omega (arith, short)) ready in
      let inside = IsCand-lt s.assoc (first hash p s a) c (subst (IsCand c) (sym shape) among) in
      let lt : c < s.num_lines = omega (arith, first-lt hash p s a i, inside) in
      (
        c,
        t,
        chosen e shape,
        lt,
        after-IsPlaced s t a c i lt inside (missing_everywhere hash p s a i nz miss),
        law.update-Ready _ c (law.replaced-Ready t c busy),
        lookup-after s t a c i lt inside nz miss,
      )
    where
      chosen :
          {rest : List ℕ} {c : ℕ} {t : S}
          → p.rank_cands lines s.rp (first hash p s a ∷ rest) ≡ ok (c, t)
          → set_assoc_cands s.assoc (first hash p s a) ≡ first hash p s a ∷ rest
          → preinsert hash p lines s a ≡ ok (record s { rp = t }, c, s.array c)
      chosen e shape = rw (shape, e) refl
