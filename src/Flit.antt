-- ===== src/Flit.antt =====
-- booksim2/src/flit.hpp: the fields of a flit that buffers and flow control read. `vc` is an index.
use bzsim.Base.{ℕ, ℤ, Bool}

pub record Flit : Type 0 where
  pub vc : ℕ
  pub tail : Bool
  pub id : ℕ
  pub pid : ℕ
  pub pri : ℤ
  pub hops : ℤ
