-- ===== src/Allocator/Wavefront.antt =====
-- booksim2/src/allocators/wavefront.{hpp,cpp}: requests are granted along the diagonals of the
-- matrix, those of the highest priority first.
pub mod Matching
pub mod Round
pub mod Add
use bzsim.Base.{
  ℕ, zero, suc, ◌+◌, ◌-◌, ◌%◌, ℤ, pos, negsuc, pos_part, is_negative, ltb_ℤ, eqb_ℤ, Bool, true,
  false, not, ◌&&◌, ◌||◌, ltb, ◌==◌, max, if◌then◌else◌, update, List, [], ◌∷◌, Outcome, ok, stop,
  ◌>>=◌, ◌>>◌, check,
}
use bzsim.Base.Fault.{undefined}
use bzsim.Allocator
use bzsim.Allocator.{Dense, Request, none_yet}

-- The fields. `_priorities`, a set of pairs of an output's and an input's priority that is read from
-- its end, is the list of its elements from the highest on.
pub record Wavefront : Type 0 where
  pub dense : Dense
  pub open dense use *
  pub last_in : ℤ
  pub last_out : ℤ
  pub priorities : List (ℤ × ℤ)
  pub skip_diags : Bool
  pub square : ℕ
  pub pri : ℕ
  pub num_requests : ℕ

-- The constructor.
unfoldable pub init : ℕ → ℕ → Bool → Wavefront
unfolding Allocator.init_dense
init inputs outputs skip_diags = record {
  dense = Allocator.init_dense inputs outputs;
  last_in = negsuc 0;
  last_out = negsuc 0;
  priorities = [];
  skip_diags = skip_diags;
  square = max inputs outputs;
  pri = 0;
  num_requests = 0;
}

-- `std::pair`'s order and equality.
abbrev pub before : ℤ × ℤ → ℤ × ℤ → Bool
before (a, b) (c, d) = ltb_ℤ a c || eqb_ℤ a c && ltb_ℤ b d

abbrev pub same : ℤ × ℤ → ℤ × ℤ → Bool
same (a, b) (c, d) = eqb_ℤ a c && eqb_ℤ b d

-- `_priorities.insert`.
unfoldable pub insert : ℤ × ℤ → List (ℤ × ℤ) → List (ℤ × ℤ)
insert x [] = x ∷ []
insert x (y ∷ ys) =
    let rest = insert x ys in
    if same x y then y ∷ ys else (if before y x then x ∷ y ∷ ys else y ∷ rest)

-- `AddRequest`.
unfoldable pub add_request : Wavefront → ℕ → ℕ → Request → Outcome Wavefront
add_request w in_port out_port req = do
  dense ← Allocator.add_request w.dense in_port out_port req
  ok (record w {
    dense = dense;
    num_requests = w.num_requests + 1;
    last_in = pos in_port;
    last_out = pos out_port;
    priorities = insert (req.out_pri, req.in_pri) w.priorities;
  })

-- What `Allocate` changes on its way: the matches and the diagonal of the first grant.
pub record Grants : Type 0 where
  pub inmatch : ℕ → ℤ
  pub outmatch : ℕ → ℤ
  pub first_diag : ℤ

-- A grant.
abbrev pub grant : ℕ → ℕ → Grants → Grants
grant i j g = record {
  inmatch = update g.inmatch i (pos j);
  outmatch = update g.outmatch j (pos i);
  first_diag = if is_negative g.first_diag then pos (i + j) else g.first_diag;
}

-- The test of the inner loop.
unfoldable pub grantable : Wavefront → ℤ × ℤ → ℕ → ℕ → Grants → Bool
grantable w (out_pri, in_pri) i j g =
    ltb i w.inputs
    && (ltb j w.outputs
        && (eqb_ℤ (g.inmatch i) none_yet
            && (eqb_ℤ (g.outmatch j) none_yet
                && (not (eqb_ℤ (w.request i j).label none_yet)
                    && (eqb_ℤ (w.request i j).in_pri in_pri
                        && eqb_ℤ (w.request i j).out_pri out_pri)))))

-- `((_pri + p) + (_square - output)) % _square`.
abbrev pub input_at : Wavefront → ℕ → ℕ → ℕ
input_at w p j = (w.pri + p + (w.square - j)) % w.square

-- The loop over the first `n` outputs of diagonal `p`.
unfoldable pub scan_diagonal : ℕ → Wavefront → ℤ × ℤ → ℕ → Grants → Grants
scan_diagonal zero w level p g = g
scan_diagonal (suc n) w level p g =
    let h = scan_diagonal n w level p g in
    if grantable w level (input_at w p n) n h then grant (input_at w p n) n h else h

-- The loop over the first `n` diagonals.
unfoldable pub scan_diagonals : ℕ → Wavefront → ℤ × ℤ → Grants → Grants
scan_diagonals zero w level g = g
scan_diagonals (suc n) w level g = scan_diagonal w.square w level n (scan_diagonals n w level g)

-- The loop over the priorities.
unfoldable pub scan_levels : List (ℤ × ℤ) → Wavefront → Grants → Grants
scan_levels [] w g = g
scan_levels (level ∷ levels) w g = scan_levels levels w (scan_diagonals w.square w level g)

-- A single request is granted at once.
unfoldable pub grant_last : ℤ → ℤ → Grants → Outcome Grants
grant_last (pos i) (pos j) g = ok (record {
  inmatch = update g.inmatch i (pos j);
  outmatch = update g.outmatch j (pos i);
  first_diag = pos (i + j);
})
grant_last i j g = stop undefined

-- The grants of `Allocate`.
unfoldable pub grants : Wavefront → Outcome Grants
grants w =
    let start : Grants = record {
      inmatch = w.inmatch;
      outmatch = w.outmatch;
      first_diag = negsuc 0;
    } in
    if w.num_requests == 1
    then grant_last w.last_in w.last_out start
    else ok (scan_levels w.priorities w start)

-- The state that `Allocate` leaves: the round-robin moves on.
abbrev pub end_round : Wavefront → Grants → Wavefront
end_round w g = record w {
  dense = record w.dense { base = record w.base { inmatch = g.inmatch; outmatch = g.outmatch } };
  num_requests = 0;
  last_in = negsuc 0;
  last_out = negsuc 0;
  priorities = [];
  pri = ((if w.skip_diags then pos_part g.first_diag else w.pri) + 1) % w.square;
}

-- The end of `Allocate`.
unfoldable pub finish : Wavefront → Grants → Outcome Wavefront
finish w g = do check (not (is_negative g.first_diag)); ok (end_round w g)

-- `Allocate`.
unfoldable pub allocate : Wavefront → Outcome Wavefront
allocate w = if w.num_requests == 0 then ok w else (grants w >>= λ g. finish w g)
