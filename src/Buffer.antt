-- ===== src/Buffer.antt =====
-- `Buffer` of booksim2/src/{buffer.hpp,buffer.cpp}: the input buffer of a router port, a bound on the
-- flits of all its virtual channels together. TRACK_BUFFERS is off.
pub mod Counts
use bzsim.Base.{
  ℕ, zero, suc, ◌*◌, ℤ, pos, negsuc, ltb_ℤ, Bool, not, ltb, if◌then◌else◌, update, Outcome, ok,
  stop, undefined, ◌>>=◌, ◌>>◌, error_if,
}
use bzsim.Flit.{Flit}
use bzsim.VirtualChannel
use bzsim.VirtualChannel.{Vc, PrioType}

-- The fields; `vcs` is the length of `_vc`.
pub record Buffer : Type 0 where
  pub occupancy : ℤ
  pub size : ℕ
  pub vcs : ℕ
  pub vc : ℕ → Vc

-- The constructor: `buf_size` of the configuration, unless that is negative.
unfoldable pub init : ℤ → ℕ → ℕ → PrioType → Bool → Buffer
unfolding VirtualChannel.init
init buf_size num_vcs vc_buf_size pri_type donation = record {
  occupancy = pos 0;
  size = elim buf_size [ pos n ↦ n | negsuc k ↦ num_vcs * vc_buf_size ];
  vcs = num_vcs;
  vc = λ _. VirtualChannel.init pri_type donation;
}

-- `++_occupancy` and `--_occupancy`.
abbrev pub one_more : ℤ → ℤ
one_more (pos n) = pos (suc n)
one_more (negsuc zero) = pos 0
one_more (negsuc (suc k)) = negsuc k

abbrev pub one_fewer : ℤ → ℤ
one_fewer (pos zero) = negsuc 0
one_fewer (pos (suc n)) = pos n
one_fewer (negsuc k) = negsuc (suc k)

-- `_occupancy >= _size`.
unfoldable pub full : Buffer → Bool
full b = not (ltb_ℤ b.occupancy (pos b.size))

-- `_vc[vc]`.
unfoldable pub at : Buffer → ℕ → Outcome Vc
at b v = if ltb v b.vcs then ok (b.vc v) else stop undefined

-- `AddFlit`.
unfoldable pub add_flit : Buffer → ℕ → ℕ → Flit → Outcome Buffer
unfolding at full
add_flit b now v f = do
  error_if (full b)
  c ← at b v
  d ← VirtualChannel.add_flit c now f
  ok (record b { occupancy = one_more b.occupancy; vc = update b.vc v d })

-- `RemoveFlit`.
unfoldable pub remove_flit : Buffer → ℕ → Outcome (Buffer × Flit)
unfolding at
remove_flit b v = do
  c ← at b v
  (d, f) ← VirtualChannel.remove_flit c
  ok (record b { occupancy = one_fewer b.occupancy; vc = update b.vc v d }, f)
