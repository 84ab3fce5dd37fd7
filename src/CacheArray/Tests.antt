-- ===== src/CacheArray/Tests.antt =====
-- A set-associative array of four lines in two ways, with the LRU policy and the address for a hash.
use bzsim.Base.{
  ℕ, ◌<◌, ◌≡◌, ◌≢◌, refl, pos, negsuc, true, false, none, arith, ok, ◌==◌, if◌then◌else◌,
}
use bzsim.Replacement.{Lines}
use bzsim.Replacement.Lru
use bzsim.Replacement.Lru.{Lru, policy}
use bzsim.Replacement.Lru.Score.{policy-IsPolicy}
use bzsim.CacheArray.{SetAssoc, init, lookup, preinsert, postinsert, line_id}
use bzsim.CacheArray.Lookup.{IsPlaced, init-IsPlaced}
use bzsim.CacheArray.Insert.{insert_lem}

abbrev hash : ℕ → ℕ → ℕ
hash w a = a

abbrev lines : Lines
lines = record { num_sharers = λ id. 0; is_valid = λ id. true }

abbrev empty : SetAssoc Lru
empty = record {
  array = λ id. 0;
  rp = Lru.init false 4;
  num_lines = 4;
  num_sets = 2;
  assoc = 2;
  set_mask = 1;
}

init_four : init 4 2 (Lru.init false 4) ≡ ok empty
unfolding init bzsim.CacheArray.is_pow2
init_four = refl

empty_misses : line_id hash policy empty 5 ≡ none
unfolding line_id bzsim.CacheArray.scan bzsim.CacheArray.first
empty_misses = refl

insert_lem_example :
    (c : ℕ) × (t : Lru) × (preinsert hash policy lines empty 5
      ≡ ok (record empty { rp = t }, c, empty.array c))
    × (c < 4)
    × IsPlaced hash policy (postinsert hash policy (record empty { rp = t }) 5 c)
    × Unit {0}
    × ((b : ℕ)
        → b ≢ 0
        → (lookup hash policy (postinsert hash policy (record empty { rp = t }) 5 c) b false).1 ≡ (
            if b == 5
            then pos c
            else if b == empty.array c
            then negsuc 0
            else (lookup hash policy empty b false).1))
insert_lem_example =
    insert_lem hash policy (λ r. Unit) (λ r. Unit) lines empty 5 (policy-IsPolicy 2) tt
      (init-IsPlaced hash policy 4 2 (Lru.init false 4) empty (omega arith) init_four)
      (λ e. omega arith) empty_misses
