-- ===== src/BufferState/Latency.antt =====
-- Larger buffers for a longer link: `IncVcBufferSize` of booksim2/src/buffer_state.{hpp,cpp}, which
-- `Network` calls for a link between chiplets.
use bzsim.Base.{ℕ, ◌+◌, ◌*◌, ◌≤◌, ◌<◌, ◌≡◌, refl, false, ok, stop, error, arith}
use bzsim.Flit.{Flit}
use bzsim.BufferPolicy
use bzsim.BufferPolicy.{private}
use bzsim.BufferPolicy.Private
use bzsim.BufferPolicy.Private.{Private}
use bzsim.BufferPolicy.View.{occupancy_for}
use bzsim.BufferState.{BufferState, inc_vc_buf_size, is_full_for, count_flit, sending_flit}
use bzsim.BufferState.Credits.{Inv}

-- The state that the call leaves.
abbrev pub grown : BufferState → Private → ℕ → BufferState
grown b p lat = record b {
  buffer_policy = private (record p { vc_buf_size = p.vc_buf_size + 2 * lat });
}

inc_vc_buf_size-grown :
    (b : BufferState) (p : Private) (lat : ℕ)
    → b.buffer_policy ≡ private p
    → inc_vc_buf_size b lat ≡ ok (grown b p lat)
unfolding inc_vc_buf_size BufferPolicy.inc_vc_buf_size Private.inc_vc_buf_size
inc_vc_buf_size-grown b p lat e = rw e refl

-- Two slots more in each VC for each cycle keep the counters consistent where the buffer has room
-- for them.
inc_vc_buf_size-Inv :
    (b : BufferState) (p : Private) (lat : ℕ)
    → b.buffer_policy ≡ private p
    → Inv b
    → ((v : ℕ) → v < b.vcs → b.vc_occupancy v ≤ p.vc_buf_size)
    → b.vcs * (p.vc_buf_size + 2 * lat) ≤ b.size
    → (c : BufferState) × (inc_vc_buf_size b lat ≡ ok c) × Inv c
inc_vc_buf_size-Inv b p lat e inv s room = (
  grown b p lat,
  inc_vc_buf_size-grown b p lat e,
  record { sum = inv.sum; fits = inv.fits; sound = (λ v h. omega (arith, s v h), room) },
)

grown-not_full :
    (b : BufferState) (p : Private) (now lat vc : ℕ)
    → vc < b.vcs
    → b.vc_occupancy vc ≤ p.vc_buf_size
    → 0 < lat
    → is_full_for (grown b p lat) now vc ≡ ok false
unfolding is_full_for BufferPolicy.is_full_for Private.is_full_for occupancy_for
grown-not_full b p now lat vc h s l = ground arith

-- `IncVcBufferSize` does not raise the size of the buffer itself. Once that many flits are in it,
-- every VC that was at most full before has room according to `IsFullFor`, and sending to it is the
-- error `Buffer overflow`.
pub inc_vc_buf_size-overflow :
    (b : BufferState) (p : Private) (now lat : ℕ) (f : Flit)
    → b.buffer_policy ≡ private p
    → 0 < lat
    → f.vc < b.vcs
    → b.vc_occupancy f.vc ≤ p.vc_buf_size
    → b.occupancy ≡ b.size
    → (c : BufferState) × (inc_vc_buf_size b lat ≡ ok c)
      × (is_full_for c now f.vc ≡ ok false)
      × (sending_flit c now f ≡ stop error)
unfolding sending_flit count_flit
inc_vc_buf_size-overflow b p now lat f e l h s full = (
  grown b p lat,
  inc_vc_buf_size-grown b p lat e,
  grown-not_full b p now lat f.vc h s l,
  ground arith,
)
