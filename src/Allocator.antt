-- ===== src/Allocator.antt =====
-- booksim2/src/allocators/allocator.{hpp,cpp}: the base class of the allocators, and the request
-- matrix of the dense ones. An allocator matches inputs with outputs; -1 stands for no match and for
-- no request.
pub mod Wavefront
mod Tests
use bzsim.Base.{
  ℕ, zero, suc, ◌+◌, ℤ, pos, negsuc, is_negative, eqb_ℤ, Bool, true, false, not, ◌&&◌, ◌||◌, ltb,
  bit, if◌then◌else◌, update, total, Outcome, ok, ◌>>=◌, ◌>>◌, check,
}

abbrev pub none_yet : ℤ
none_yet = negsuc 0

-- The fields of the base class.
pub record Allocator : Type 0 where
  pub inputs : ℕ
  pub outputs : ℕ
  pub dirty : Bool
  pub inmatch : ℕ → ℤ
  pub outmatch : ℕ → ℤ

-- The constructor.
unfoldable pub init : ℕ → ℕ → Allocator
init inputs outputs = record {
  inputs = inputs;
  outputs = outputs;
  dirty = false;
  inmatch = λ _. none_yet;
  outmatch = λ _. none_yet;
}

-- `Allocator::Clear`.
unfoldable pub clear_matches : Allocator → Allocator
clear_matches a =
    if a.dirty
    then (record a { inmatch = λ _. none_yet; outmatch = λ _. none_yet; dirty = false })
    else a

-- `Allocator::AddRequest`.
unfoldable pub note_request : Allocator → ℕ → ℕ → ℤ → Outcome Allocator
note_request a in_port out_port label = do
  check (ltb in_port a.inputs)
  check (ltb out_port a.outputs)
  check (not (is_negative label))
  ok (record a { dirty = true })

-- `OutputAssigned` and `InputAssigned`.
unfoldable pub output_assigned : Allocator → ℕ → Outcome ℤ
output_assigned a in_port = do check (ltb in_port a.inputs); ok (a.inmatch in_port)

unfoldable pub input_assigned : Allocator → ℕ → Outcome ℤ
input_assigned a out_port = do check (ltb out_port a.outputs); ok (a.outmatch out_port)

-- `sRequest`.
pub record Request : Type 0 where
  pub label : ℤ
  pub in_pri : ℤ
  pub out_pri : ℤ

-- `DenseAllocator`.
pub record Dense : Type 0 where
  pub base : Allocator
  pub open base use *
  pub request : ℕ → ℕ → Request

abbrev pub no_request : Request
no_request = record { label = none_yet; in_pri = pos 0; out_pri = pos 0 }

-- The constructor; the priorities of an absent request are not read.
unfoldable pub init_dense : ℕ → ℕ → Dense
unfolding init
init_dense inputs outputs = record { base = init inputs outputs; request = λ i j. no_request }

-- `DenseAllocator::Clear`.
unfoldable pub clear : Dense → Dense
clear d = record {
  base = clear_matches d.base;
  request = λ i j. record (d.request i j) { label = none_yet };
}

-- `ReadRequest`: the label.
unfoldable pub read_request : Dense → ℕ → ℕ → Outcome ℤ
read_request d in_port out_port = do
  check (ltb in_port d.inputs)
  check (ltb out_port d.outputs)
  ok (d.request in_port out_port).label

-- `AddRequest`.
unfoldable pub add_request : Dense → ℕ → ℕ → Request → Outcome Dense
add_request d in_port out_port req = do
  base ← note_request d.base in_port out_port req.label
  check (eqb_ℤ (d.request in_port out_port).label none_yet)
  ok (record d {
    base = base;
    request = update d.request in_port (update (d.request in_port) out_port req);
  })

-- `RemoveRequest`.
unfoldable pub remove_request : Dense → ℕ → ℕ → Outcome Dense
remove_request d in_port out_port = do
  check (ltb in_port d.inputs)
  check (ltb out_port d.outputs)
  ok (record d {
    request = update d.request in_port (
        update (d.request in_port) out_port
          (record (d.request in_port out_port) { label = none_yet }));
  })

-- `_request[in][out].label >= 0`.
abbrev pub asks : Dense → ℕ → ℕ → Bool
asks d i j = not (is_negative (d.request i j).label)

-- The loops of `InputHasRequests` and `OutputHasRequests`, over the first `n`.
unfoldable pub row_has : Dense → ℕ → ℕ → Bool
row_has d i zero = false
row_has d i (suc n) = row_has d i n || asks d i n

unfoldable pub column_has : Dense → ℕ → ℕ → Bool
column_has d j zero = false
column_has d j (suc n) = column_has d j n || asks d n j

unfoldable pub input_has_requests : Dense → ℕ → Bool
input_has_requests d i = row_has d i d.outputs

unfoldable pub output_has_requests : Dense → ℕ → Bool
output_has_requests d j = column_has d j d.inputs

-- `NumInputRequests` and `NumOutputRequests`.
unfoldable pub num_input_requests : Dense → ℕ → ℕ
num_input_requests d i = total d.outputs (λ j. bit (asks d i j))

unfoldable pub num_output_requests : Dense → ℕ → ℕ
num_output_requests d j = total d.inputs (λ i. bit (asks d i j))
