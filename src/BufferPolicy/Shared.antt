-- ===== src/BufferPolicy/Shared.antt =====
-- `SharedBufferPolicy` of booksim2/src/buffer_state.cpp: VCs in groups, each group with private
-- slots, and a pool of slots that all groups share.
pub mod Account
pub mod Slots
pub mod Flow
pub mod Capacity
use bzsim.Base.{
  ℕ, zero, suc, ◌+◌, ◌-◌, ℤ, pos, negsuc, sub_ℕ, Bool, not, ◌&&◌, ltb, leb, ◌==◌, if◌then◌else◌,
  update, Outcome, ok, stop, error, undefined, ◌>>=◌, ◌>>◌, error_if,
}
use bzsim.Flit.{Flit}
use bzsim.BufferPolicy.View.{View, is_empty_for, is_available_for}

-- The fields. `private_buf_vc_map` gives a VC its group, -1 for none; `groups` is the length of the
-- vectors over groups.
pub record Shared : Type 0 where
  pub buf_size : ℕ
  pub groups : ℕ
  pub private_buf_vc_map : ℕ → ℤ
  pub private_buf_size : ℕ → ℕ
  pub private_buf_occupancy : ℕ → ℕ
  pub shared_buf_size : ℕ
  pub shared_buf_occupancy : ℕ
  pub reserved_slots : ℕ → ℕ

-- `_private_buf_vc_map[vc]` where it goes on to index a vector over groups.
unfoldable pub group : Shared → ℕ → Outcome ℕ
group s vc = elim (s.private_buf_vc_map vc) [
  | pos i ↦ if ltb i s.groups then ok i else stop undefined
  | negsuc k ↦ stop undefined
]

-- The decrement of a counter that is an error below zero.
abbrev pub decrement : ℕ → Outcome ℕ
decrement zero = stop error
decrement (suc n) = ok n

-- `--_shared_buf_occupancy`, with its check.
leave_pool : Shared → Outcome Shared
leave_pool s = do n ← decrement s.shared_buf_occupancy; ok (record s { shared_buf_occupancy = n })

-- `ProcessFreeSlot`.
unfoldable pub process_free_slot : Shared → ℕ → Outcome Shared
unfolding leave_pool
process_free_slot s vc = do
  i ← group s vc
  n ← decrement (s.private_buf_occupancy i)
  let freed = record s { private_buf_occupancy = update s.private_buf_occupancy i n }
  if leb (s.private_buf_size i) n then leave_pool freed else ok freed

-- `++_shared_buf_occupancy`, with its check.
enter_pool : Shared → Outcome Shared
enter_pool s = do
  error_if (ltb s.shared_buf_size (s.shared_buf_occupancy + 1))
  ok (record s { shared_buf_occupancy = s.shared_buf_occupancy + 1 })

-- The branch of `SendingFlit` for a VC with no reserved slot.
unfoldable pub take_slot : Shared → ℕ → Outcome Shared
unfolding enter_pool
take_slot s vc = do
  i ← group s vc
  let n = s.private_buf_occupancy i + 1
  let taken = record s { private_buf_occupancy = update s.private_buf_occupancy i n }
  if ltb (s.private_buf_size i) n then enter_pool taken else ok taken

-- The `while` loop of `SendingFlit`; the first argument is `_reserved_slots[vc]`.
unfoldable pub release_reserved : ℕ → Shared → ℕ → Outcome Shared
release_reserved zero s vc = ok s
release_reserved (suc n) s vc = do
  t ← process_free_slot (record s { reserved_slots = update s.reserved_slots vc n }) vc
  release_reserved n t vc

-- The first `if` of `SendingFlit`.
unfoldable pub use_slot : Shared → ℕ → Outcome Shared
use_slot s vc = elim (s.reserved_slots vc) [
  | zero ↦ take_slot s vc
  | suc n ↦ ok (record s { reserved_slots = update s.reserved_slots vc n })
]

-- `SendingFlit`.
unfoldable pub sending_flit : Shared → Flit → Outcome Shared
sending_flit s f = do
  t ← use_slot s f.vc
  if f.tail then release_reserved (t.reserved_slots f.vc) t f.vc else ok t

-- `++_reserved_slots[vc]`.
reserve : Shared → ℕ → Shared
reserve s vc = record s { reserved_slots = update s.reserved_slots vc (s.reserved_slots vc + 1) }

-- `FreeSlotFor`; the view no longer counts the flit. A VC that a packet holds keeps one slot.
unfoldable pub free_slot_for : Shared → View → ℕ → Outcome Shared
unfolding reserve
free_slot_for s v vc = do
  available ← is_available_for v vc
  empty ← is_empty_for v vc
  if (not available && empty) then ok (reserve s vc) else process_free_slot s vc

-- `IsFullFor`.
unfoldable pub is_full_for : Shared → ℕ → Outcome Bool
is_full_for s vc = do
  i ← group s vc
  ok (
      s.reserved_slots vc == 0
      && leb (s.private_buf_size i) (s.private_buf_occupancy i)
      && leb s.shared_buf_size s.shared_buf_occupancy)

-- `AvailableFor`: `max(private size - occupancy, 0)` is the truncated difference.
unfoldable pub available_for : Shared → ℕ → Outcome ℤ
available_for s vc = do
  i ← group s vc
  ok (
      sub_ℕ
        (s.reserved_slots vc
          + (s.private_buf_size i - s.private_buf_occupancy i)
          + s.shared_buf_size)
        s.shared_buf_occupancy)

-- `LimitFor`.
unfoldable pub limit_for : Shared → ℕ → Outcome ℕ
limit_for s vc = do i ← group s vc; ok (s.private_buf_size i + s.shared_buf_size)
