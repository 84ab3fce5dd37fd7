-- ===== src/Coherence/Top.antt =====
-- `MESITopCC` of zsim/src/coherence_ctrls.{h,cpp}: who shares a line at the lower level, and the
-- invalidations that are sent to the sharers. The children are of any kind `C`. Behind a network
-- on chip there is one child, the network, which passes an invalidation on to a grandchild; the
-- directory then lists the grandchildren, and `kids` are these.
pub mod Children
pub mod Sweep
pub mod Directory
pub mod Serve
pub mod Puts
pub mod Gets
pub mod Noc
use bzsim.Base.{
  ℕ, zero, suc, ◌+◌, ◌-◌, ◌%◌, ◌^◌, Bool, true, false, not, ◌&&◌, ◌||◌, ltb, leb, ◌==◌,
  if◌then◌else◌, update, Outcome, ok, stop, ◌>>=◌, ◌>>◌, check, error_if,
}
use bzsim.Base.Fault.{undefined}
use bzsim.Coherence.{
  MesiState, invalid, shared, exclusive, modified, AccessType, gets, getx, puts, putx, InvType, inv,
  invx, fwd, Flags, is_modified, add64, larger,
}

-- `MESITopCC::Entry`.
pub record Entry : Type 0 where
  pub num_sharers : ℕ
  pub sharers : ℕ → Bool
  pub is_excl : Bool

-- `clear`.
abbrev pub clear : Entry
clear = record { num_sharers = 0; sharers = λ _. false; is_excl = false }

-- `isEmpty`.
abbrev pub is_empty : Entry → Bool
is_empty e = e.num_sharers == 0

-- `isExclusive`.
abbrev pub is_exclusive : Entry → Bool
is_exclusive e = e.num_sharers == 1 && e.is_excl

abbrev pub max_cache_children : ℕ
max_cache_children = 256

-- What the controller is built with: `call c` is `invalidate` of child c, `call_noc g` that of
-- child 0 for the grandchild g; each gives the child's line, whether it asks for a writeback, and
-- the response cycle. `sync` is the event recorder's code, of which a failed test can stop the
-- program.
pub record TopConfig (C : Type 0) : Type 0 where
  pub children_size : ℕ
  pub children_rtts : ℕ → ℕ
  pub num_grand_children : ℕ
  pub non_inclusive_hack : Bool
  pub state : C → MesiState
  pub set_state : MesiState → C → C
  pub call : ℕ → InvType → ℕ → ℕ → C → Outcome (C × Bool × ℕ)
  pub call_noc : ℕ → InvType → ℕ → ℕ → C → Outcome (C × Bool × ℕ)
  pub sync : ℕ → ℕ → Outcome (Unit {0})

-- A line as this controller sees it: its entry and what each child has of it.
pub record Dir (C : Type 0) : Type 0 where
  pub entry : Entry
  pub kids : ℕ → C

-- The variables of the loops of `sendInvalidates`.
pub record Sent (C : Type 0) : Type 0 where
  pub dir : Dir C
  pub writeback : Bool
  pub max_cycle : ℕ
  pub sent_invs : ℕ

-- `std::bitset::operator[]` out of range is undefined.
abbrev pub in_bitset : ℕ → Outcome (Unit {0})
in_bitset c = if ltb c max_cache_children then ok tt else stop undefined

abbrev pub is_inv : InvType → Bool
is_inv inv = true
is_inv type = false

abbrev pub is_invx : InvType → Bool
is_invx invx = true
is_invx type = false

-- `sharers[c] = b`.
abbrev pub set_sharer : Entry → ℕ → Bool → Entry
set_sharer e c b = record e { sharers = update e.sharers c b }

-- `numSharers++` and `numSharers--`, in 32 bits.
abbrev pub one_more : Entry → Entry
one_more e = record e { num_sharers = (e.num_sharers + 1) % 2 ^ 32 }

abbrev pub one_less : Entry → Entry
one_less e = record e { num_sharers = (e.num_sharers + 2 ^ 32 - 1) % 2 ^ 32 }

-- The entry after the loop.
unfoldable pub settle : InvType → Entry → Outcome Entry
settle inv e = ok (record e { num_sharers = 0 })
settle type e = do check e.is_excl; check (e.num_sharers == 1); ok (record e { is_excl = false })

module _ {C : Type 0} (t : TopConfig C) where
  -- The call for sharer `c`: the round trip of a network on chip is in the response.
  unfoldable pub call_child : Bool → ℕ → InvType → ℕ → ℕ → C → Outcome (C × Bool × ℕ)
  call_child false c type cycle src_id kid = do
    (kid, writeback, resp) ← t.call c type cycle src_id kid
    ok (kid, writeback, add64 resp (t.children_rtts c))
  call_child true g type cycle src_id kid =
      if t.children_size == 0 then stop undefined else t.call_noc g type cycle src_id kid

  -- A sharer is told.
  unfoldable pub send_one : InvType → ℕ → ℕ → Bool → ℕ → Sent C → Outcome (Sent C)
  send_one type cycle src_id noc_req c s = do
    (kid, writeback, resp) ← call_child noc_req c type cycle src_id (s.dir.kids c)
    ok (record {
      dir = record {
        entry = if is_inv type then set_sharer s.dir.entry c false else s.dir.entry;
        kids = update s.dir.kids c kid;
      };
      writeback = s.writeback || writeback;
      max_cycle = larger resp s.max_cycle;
      sent_invs = s.sent_invs + 1;
    })

  -- The loop over the first `n`.
  unfoldable pub send_each : ℕ → InvType → ℕ → ℕ → Bool → Sent C → Outcome (Sent C)
  send_each zero type cycle src_id noc_req s = ok s
  send_each (suc n) type cycle src_id noc_req s = do
    s ← send_each n type cycle src_id noc_req s
    in_bitset n
    if s.dir.entry.sharers n then send_one type cycle src_id noc_req n s else ok s

  -- `sendInvalidates` to a line that has sharers.
  unfoldable pub send_to_sharers : InvType → ℕ → ℕ → Bool → Dir C → Outcome (Dir C × Bool × ℕ)
  send_to_sharers type cycle src_id noc_req d = do
    s ←
        send_each (if noc_req then t.num_grand_children else t.children_size) type cycle src_id
          noc_req (record { dir = d; writeback = false; max_cycle = cycle; sent_invs = 0 })
    if noc_req && ltb 1 s.sent_invs then t.sync src_id s.max_cycle else ok tt
    check (s.sent_invs == s.dir.entry.num_sharers)
    e ← settle type s.dir.entry
    ok (record s.dir { entry = e }, s.writeback, s.max_cycle)

  -- `sendInvalidates`: the line, whether a child asks for a writeback, and the last response.
  unfoldable pub send_invalidates : InvType → ℕ → ℕ → Bool → Dir C → Outcome (Dir C × Bool × ℕ)
  send_invalidates type cycle src_id noc_req d =
      if is_invx type && not (is_exclusive d.entry) || is_empty d.entry
      then ok (d, false, cycle)
      else send_to_sharers type cycle src_id noc_req d

  -- `processEviction`.
  unfoldable pub process_eviction : ℕ → ℕ → Bool → Dir C → Outcome (Dir C × Bool × ℕ)
  process_eviction cycle src_id noc_req d =
      if t.non_inclusive_hack
      then ok (record d { entry = clear }, false, cycle)
      else send_invalidates inv cycle src_id noc_req d

  -- `*childState = state`.
  abbrev pub set_child : ℕ → MesiState → Dir C → Dir C
  set_child cell state d = record d { kids = update d.kids cell (t.set_state state (d.kids cell)) }

  -- A PUTS, and a PUTX that gives the line up.
  unfoldable pub put : ℕ → ℕ → Bool → ℕ → Dir C → Outcome (Dir C)
  put child_id cell noc_req noc_child_id d = do
    in_bitset (if noc_req then noc_child_id else child_id)
    check (noc_req || d.entry.sharers child_id)
    let e = set_sharer d.entry (if noc_req then noc_child_id else child_id) false
    ok (set_child cell invalid (record d { entry = one_less e }))

  -- A PUTX.
  unfoldable pub put_dirty : ℕ → ℕ → Flags → Bool → ℕ → Dir C → Outcome (Dir C)
  put_dirty child_id cell flags noc_req noc_child_id d = do
    check (is_exclusive d.entry)
    if flags.putx_keep_excl
        then (in_bitset child_id
            >> (check (d.entry.sharers child_id)
                >> (check (is_modified (t.state (d.kids cell)))
                    >> ok (set_child cell exclusive d))))
        else put child_id cell noc_req noc_child_id d

  -- A GETS that is not given exclusive permission.
  unfoldable pub get_shared : ℕ → ℕ → ℕ → ℕ → Bool → Dir C → Outcome (Dir C × Bool × ℕ)
  get_shared child_id cell cycle src_id noc_req d = do
    in_bitset child_id
    check (not (d.entry.sharers child_id))
    (d, writeback, resp) ←
        if is_exclusive d.entry
        then send_invalidates invx cycle src_id noc_req d
        else ok (d, false, cycle)
    check (not (is_exclusive d.entry))
    in_bitset (if noc_req then src_id else child_id)
    let e = set_sharer d.entry (if noc_req then src_id else child_id) true
    let e = record (one_more e) { is_excl = false }
    ok (set_child cell shared (record d { entry = e }), writeback, resp)

  -- A GETS.
  unfoldable pub get_line : ℕ → ℕ → Bool → ℕ → ℕ → Flags → Bool → Dir C → Outcome (Dir C × Bool × ℕ)
  get_line child_id cell have_exclusive cycle src_id flags noc_req d =
      if is_empty d.entry && have_exclusive && not flags.no_excl
      then (in_bitset (if noc_req then src_id else child_id)
          >> ok (
            set_child cell exclusive (record d {
              entry = record {
                num_sharers = 1;
                sharers = update d.entry.sharers (if noc_req then src_id else child_id) true;
                is_excl = true;
              };
            }),
            false,
            cycle,
          ))
      else get_shared child_id cell cycle src_id noc_req d

  -- A requester that shares the line already is taken out of the list.
  unfoldable pub take_out : ℕ → Bool → Entry → Outcome Entry
  take_out c noc_req e =
      if e.sharers c
      then (check (noc_req || not (is_exclusive e)) >> ok (one_less (set_sharer e c false)))
      else ok e

  -- A GETX.
  unfoldable pub get_exclusive : ℕ → ℕ → Bool → ℕ → ℕ → Bool → Dir C → Outcome (Dir C × Bool × ℕ)
  get_exclusive child_id cell have_exclusive cycle src_id noc_req d = do
    check have_exclusive
    in_bitset (if noc_req then src_id else child_id)
    e ← take_out (if noc_req then src_id else child_id) noc_req d.entry
    (d, writeback, resp) ← send_invalidates inv cycle src_id noc_req (record d { entry = e })
    let e = set_sharer d.entry (if noc_req then src_id else child_id) true
    let e = record (one_more e) { is_excl = true }
    check (e.num_sharers == 1)
    ok (set_child cell modified (record d { entry = e }), writeback, resp)

  -- `processAccess`; `cell` is the child whose state `childState` points to.
  unfoldable pub process_access :
      AccessType → ℕ → ℕ → Bool → ℕ → ℕ → Flags → Bool → ℕ → Dir C → Outcome (Dir C × Bool × ℕ)
  process_access puts child_id cell have_exclusive cycle src_id flags noc_req noc_child_id d = do
    d ← put child_id cell noc_req noc_child_id d
    ok (d, false, cycle)
  process_access putx child_id cell have_exclusive cycle src_id flags noc_req noc_child_id d = do
    d ← put_dirty child_id cell flags noc_req noc_child_id d
    ok (d, false, cycle)
  process_access gets child_id cell have_exclusive cycle src_id flags noc_req noc_child_id d =
      get_line child_id cell have_exclusive cycle src_id flags noc_req d
  process_access getx child_id cell have_exclusive cycle src_id flags noc_req noc_child_id d =
      get_exclusive child_id cell have_exclusive cycle src_id noc_req d

  -- `processInval`.
  unfoldable pub process_inval : InvType → ℕ → ℕ → Bool → Dir C → Outcome (Dir C × Bool × ℕ)
  process_inval fwd cycle src_id noc_req d = do
    check (not t.non_inclusive_hack)
    ok (d, false, cycle)
  process_inval type cycle src_id noc_req d = send_invalidates type cycle src_id noc_req d
