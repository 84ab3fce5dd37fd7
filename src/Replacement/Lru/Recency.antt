-- ===== src/Replacement/Lru/Recency.antt =====
-- `rank` of `LRUReplPolicy` and the textbook's stack of lines, the last used on top.
use bzsim.Base.{
  ℕ, suc, ◌+◌, ◌-◌, ◌%◌, ◌^◌, ◌≤◌, ◌<◌, min, ◌≡◌, refl, inl, inr, Bool, true, false, List, [], ◌∷◌,
  length, ltb, ◌==◌, if◌then◌else◌, Bool-cases, arith,
}
use bzsim.Replacement.{Lines, IsCand}
use bzsim.Replacement.Lru.{Lru, init, use_line, replaced, score, rank_loop, rank}

-- What happens to a line.
pub data Event : Type 0 where
  used : ℕ → Event
  evicted : ℕ → Event

unfoldable pub play : Lru → List Event → Lru
play r [] = r
play r (used id ∷ es) = play (use_line r id) es
play r (evicted id ∷ es) = play (replaced r id) es

-- The stack without a line.
unfoldable pub remove : ℕ → List ℕ → List ℕ
remove x [] = []
remove x (y ∷ ys) = let rest = remove x ys in if x == y then rest else y ∷ rest

-- A used line goes on top, and an evicted one leaves.
unfoldable pub recency : List ℕ → List Event → List ℕ
recency s [] = s
recency s (used id ∷ es) = recency (id ∷ remove id s) es
recency s (evicted id ∷ es) = recency (remove id s) es

-- How many lines lie above: all of them for a line that is not in the stack.
unfoldable pub depth : List ℕ → ℕ → ℕ
depth [] x = 0
depth (y ∷ ys) x = if y == x then 0 else suc (depth ys x)

unfoldable pub oldest_from : List ℕ → List ℕ → ℕ → ℕ
oldest_from s [] w = w
oldest_from s (c ∷ cs) w = oldest_from s cs (if ltb (depth s w) (depth s c) then c else w)

depth-remove :
    (x : ℕ) (s : List ℕ) (a b : ℕ)
    → (x == a) ≡ false
    → (x == b) ≡ false
    → ltb (depth (remove x s) a) (depth (remove x s) b) ≡ ltb (depth s a) (depth s b)
unfolding depth remove
depth-remove x [] a b ha hb = refl
depth-remove x (y ∷ ys) a b ha hb = ground (arith, depth-remove x ys a b ha hb)

depth-remove-length :
    (x : ℕ) (s : List ℕ) (a : ℕ)
    → (x == a) ≡ false
    → ltb (depth (remove x s) a) (length (remove x s)) ≡ ltb (depth s a) (length s)
unfolding depth remove
depth-remove-length x [] a h = refl
depth-remove-length x (y ∷ ys) a h = ground (arith, depth-remove-length x ys a h)

depth-remove_self : (x : ℕ) (s : List ℕ) → depth (remove x s) x ≡ length (remove x s)
unfolding depth remove
depth-remove_self x [] = refl
depth-remove_self x (y ∷ ys) = ground (arith, depth-remove_self x ys)

depth-remove_bound : (x : ℕ) (s : List ℕ) (a : ℕ) → depth (remove x s) a ≤ length (remove x s)
unfolding depth remove
depth-remove_bound x [] a = omega arith
depth-remove_bound x (y ∷ ys) a = ground (arith, depth-remove_bound x ys a)

timestamp-init : (aware : Bool) (n : ℕ) → (init aware n).timestamp ≡ 1
unfolding init
timestamp-init aware n = refl

aware-init : (aware : Bool) (n : ℕ) → (init aware n).sharers_aware ≡ aware
unfolding init
aware-init aware n = refl

timestamp-use_line :
    (r : Lru) (x : ℕ) → r.timestamp + 1 < 2 ^ 64 → (use_line r x).timestamp ≡ r.timestamp + 1
unfolding use_line
timestamp-use_line r x h = omega arith

timestamp-replaced : (r : Lru) (x : ℕ) → (replaced r x).timestamp ≡ r.timestamp
unfolding replaced
timestamp-replaced r x = refl

aware-use_line : (r : Lru) (x : ℕ) → (use_line r x).sharers_aware ≡ r.sharers_aware
unfolding use_line
aware-use_line r x = refl

aware-replaced : (r : Lru) (x : ℕ) → (replaced r x).sharers_aware ≡ r.sharers_aware
unfolding replaced
aware-replaced r x = refl

-- The timestamps order the lines as the stack does.
record IsRecency (r : Lru) (s : List ℕ) : Type 0 where
  stamped : (a : ℕ) → r.array a < r.timestamp
  order : (a b : ℕ) → ltb (r.array a) (r.array b) ≡ ltb (depth s b) (depth s a)
  absent : (a : ℕ) → ltb 0 (r.array a) ≡ ltb (depth s a) (length s)

use_line-IsRecency :
    (r : Lru) (s : List ℕ) (x : ℕ)
    → r.timestamp + 1 < 2 ^ 64
    → IsRecency r s
    → IsRecency (use_line r x) (x ∷ remove x s)
unfolding use_line depth
use_line-IsRecency r s x h i = record {
  stamped = λ a. ground (arith, i.stamped a);
  order = λ a b. ground (arith, i.order a b, i.stamped a, i.stamped b, depth-remove x s b a);
  absent = λ a. ground (arith, i.absent a, i.stamped a, depth-remove-length x s a);
}

replaced-IsRecency :
    (r : Lru) (s : List ℕ) (x : ℕ) → IsRecency r s → IsRecency (replaced r x) (remove x s)
unfolding replaced
replaced-IsRecency r s x i = record {
  stamped = λ a. ground (arith, i.stamped a);
  order = λ a b. ground (
    arith,
    i.order a b,
    i.absent a,
    i.absent b,
    depth-remove x s b a,
    depth-remove-length x s a,
    depth-remove-length x s b,
    depth-remove_self x s,
    depth-remove_bound x s a,
    depth-remove_bound x s b,
  );
  absent = λ a. ground (arith, i.absent a, depth-remove-length x s a, depth-remove_self x s);
}

-- What a sequence of events leaves: the stack's order, the template's argument, and a counter that
-- has grown by the uses at most.
play-IsRecency :
    (r : Lru) (s : List ℕ) (es : List Event)
    → r.timestamp + length es < 2 ^ 64
    → IsRecency r s
    → IsRecency (play r es) (recency s es)
      × ((play r es).timestamp ≤ r.timestamp + length es)
      × ((play r es).sharers_aware ≡ r.sharers_aware)
unfolding play recency
play-IsRecency r s [] h i = (i, omega arith, refl)
play-IsRecency r s (used x ∷ es) h i =
    let e = timestamp-use_line r x (omega arith) in
    let (j, t, a) =
      play-IsRecency (use_line r x) (x ∷ remove x s) es (omega (arith, e))
        (use_line-IsRecency r s x (omega arith) i) in
    (j, omega (arith, e, t), cc (a, aware-use_line r x))
play-IsRecency r s (evicted x ∷ es) h i =
    let e = timestamp-replaced r x in
    let (j, t, a) =
      play-IsRecency (replaced r x) (remove x s) es (omega (arith, e))
        (replaced-IsRecency r s x i) in
    (j, omega (arith, e, t), cc (a, aware-replaced r x))

init-IsRecency : (aware : Bool) (n : ℕ) → IsRecency (init aware n) []
unfolding init depth
init-IsRecency aware n = record {
  stamped = λ a. omega arith;
  order = λ a b. refl;
  absent = λ a. refl;
}

-- In a policy that ignores the sharers, the score of a valid line is its timestamp.
score_valid :
    (lines : Lines) (r : Lru) (c : ℕ)
    → r.sharers_aware ≡ false
    → lines.is_valid c ≡ true
    → r.array c < 2 ^ 32
    → score lines r c % 2 ^ 32 ≡ r.array c
unfolding score
score_valid lines r c a v h = ground arith

rank_loop-oldest_from :
    (lines : Lines) (r : Lru) (s : List ℕ) (cs : List ℕ) (w : ℕ)
    → r.sharers_aware ≡ false
    → ((a : ℕ) → r.array a < 2 ^ 32)
    → ((c : ℕ) → IsCand c cs → lines.is_valid c ≡ true)
    → IsRecency r s
    → rank_loop lines r cs w (r.array w) ≡ oldest_from s cs w
unfolding rank_loop oldest_from
rank_loop-oldest_from lines r s [] w a h v i = refl
rank_loop-oldest_from lines r s (c ∷ cs) w a h v i =
    let o = i.order c w in
    rw (score_valid lines r c a (v c (inl refl)) (h c), o)
      (elim (Bool-cases (ltb (depth s w) (depth s c))) [
        | inl e ↦
            let m : min (r.array c) (r.array w) ≡ r.array c = ground (arith, o, e) in
            rw (e, m) (rank_loop-oldest_from lines r s cs c a h (λ x p. v x (inr p)) i)
        | inr e ↦
            let m : min (r.array c) (r.array w) ≡ r.array w = ground (arith, o, e) in
            rw (e, m) (rank_loop-oldest_from lines r s cs w a h (λ x p. v x (inr p)) i)
      ])

-- The candidate that lies deepest, the first of several: the definition that `rank` is measured by.
unfoldable pub oldest : List ℕ → List ℕ → ℕ
oldest s [] = 2 ^ 32 - 1
oldest s (c ∷ cs) = oldest_from s cs c

rank-oldest :
    (lines : Lines) (r : Lru) (s : List ℕ) (cs : List ℕ)
    → r.sharers_aware ≡ false
    → r.timestamp ≤ 2 ^ 32
    → ((c : ℕ) → IsCand c cs → lines.is_valid c ≡ true)
    → IsRecency r s
    → rank lines r cs ≡ oldest s cs
unfolding rank rank_loop oldest
rank-oldest lines r s [] a h v i = refl
rank-oldest lines r s (c ∷ cs) a h v i =
    let below : (x : ℕ) → r.array x < 2 ^ 32 = λ x. omega (arith, i.stamped x) in
    let first : ltb (r.array c) (2 ^ 64 - 1) ≡ true = ground (arith, below c) in
    let least : min (r.array c) (2 ^ 64 - 1) ≡ r.array c = omega (arith, below c) in
    rw (score_valid lines r c a (v c (inl refl)) (below c), first, least)
      (rank_loop-oldest_from lines r s cs c a below (λ x p. v x (inr p)) i)

-- While fewer than 2 ^ 32 uses and evictions have happened, the policy that ignores the sharers
-- chooses among valid candidates as the stack of lines does, whatever has happened to them: the one
-- that lies deepest, a line that is not in the stack below all others, and the first of several.
pub play-oldest :
    (lines : Lines) (n : ℕ) (es : List Event) (cs : List ℕ)
    → length es < 2 ^ 32
    → ((c : ℕ) → IsCand c cs → lines.is_valid c ≡ true)
    → rank lines (play (init false n) es) cs ≡ oldest (recency [] es) cs
play-oldest lines n es cs h v =
    let t : (init false n).timestamp ≡ 1 = timestamp-init false n in
    let (i, b, a) =
      play-IsRecency (init false n) [] es (omega (arith, t)) (init-IsRecency false n) in
    rank-oldest lines (play (init false n) es) (recency [] es) cs (cc (a, aware-init false n))
      (omega (arith, b, t)) v i
