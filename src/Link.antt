-- ===== src/Link.antt =====
-- A channel between two routers: the `BufferState` of the sender's output, the flits on the way, the
-- input `Buffer` of the receiver and the credits on the way back
-- (booksim2/src/{buffer_state,buffer,channel,credit}.hpp). Flits and credits keep their order; their
-- delays are any. A credit carries one VC.
pub mod Balance
pub mod Steps
pub mod Safe
mod Tests
use bzsim.Base.{ℕ, ◌<◌, ◌≡◌, ℤ, is_negative, true, false, List, [], ◌∷◌, ◌++◌, Outcome, ok}
use bzsim.Flit.{Flit}
use bzsim.BufferPolicy.Contract.{HasPacket, HasSpare}
use bzsim.BufferState
use bzsim.BufferState.{BufferState}
use bzsim.BufferState.Credits.{IsUsed}
use bzsim.Buffer
use bzsim.Buffer.{Buffer}

pub record Link : Type 0 where
  pub sender : BufferState
  pub channel : List Flit
  pub receiver : Buffer
  pub credits : List ℕ

-- What the two routers do with the link. The sender asks before it takes a VC or sends a flit; the
-- receiver returns a credit for each flit that it takes out.
pub data Step : Link → Link → Type 0 where
  takes :
      {l : Link} {s : BufferState} (vc : ℕ) (tag : ℤ)
      → vc < l.sender.vcs
      → is_negative (l.sender.in_use_by vc) ≡ true
      → is_negative tag ≡ false
      → HasSpare l.sender.buffer_policy
      → BufferState.take_buffer l.sender vc tag ≡ ok s
      → Step l (record l { sender = s })
  sends :
      {l : Link} {s : BufferState} (now : ℕ) (f : Flit)
      → f.vc < l.sender.vcs
      → BufferState.is_full_for l.sender now f.vc ≡ ok false
      → IsUsed l.sender f.vc
      → (f.tail ≡ true → HasPacket l.sender.buffer_policy)
      → BufferState.sending_flit l.sender now f ≡ ok s
      → Step l (record l { sender = s; channel = l.channel ++ f ∷ [] })
  delivers :
      {l : Link} {r : Buffer} {rest : List Flit} (now : ℕ) (f : Flit)
      → l.channel ≡ f ∷ rest
      → Buffer.add_flit l.receiver now f.vc f ≡ ok r
      → Step l (record l { channel = rest; receiver = r })
  removes :
      {l : Link} {r : Buffer} (vc : ℕ) (f : Flit)
      → Buffer.remove_flit l.receiver vc ≡ ok (r, f)
      → Step l (record l { receiver = r; credits = l.credits ++ vc ∷ [] })
  credited :
      {l : Link} {s : BufferState} {rest : List ℕ} (now vc : ℕ)
      → l.credits ≡ vc ∷ rest
      → BufferState.process_credit l.sender now (vc ∷ []) ≡ ok s
      → Step l (record l { sender = s; credits = rest })

pub data Reaches : Link → Link → Type 0 where
  here : {l : Link} → Reaches l l
  onward : {l m n : Link} → Reaches l m → Step m n → Reaches l n
