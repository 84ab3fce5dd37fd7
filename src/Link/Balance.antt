-- ===== src/Link/Balance.antt =====
-- Every slot that the sender counts is a flit on the way, a flit in the receiver or a credit on the
-- way back.
use bzsim.Base.{ℕ, ◌+◌, ◌<◌, ◌≡◌, bit, ◌==◌, List, [], ◌∷◌, ◌++◌, Outcome, ok, arith}
use bzsim.Flit.{Flit}
use bzsim.BufferState.Credits.{Inv, IsOwed}
use bzsim.Buffer.Counts.{fill, IsCounted}
use bzsim.Link.{Link}

-- Flits of VC `v` on the way, and credits of it.
abbrev pub flying : List Flit → ℕ → ℕ
flying [] v = 0
flying (f ∷ fs) v = bit (f.vc == v) + flying fs v

abbrev pub returning : List ℕ → ℕ → ℕ
returning [] v = 0
returning (c ∷ cs) v = bit (c == v) + returning cs v

-- Flits on the way name a VC of the link, and so do credits.
abbrev pub AreWithin : ℕ → List Flit → Type 0
AreWithin n [] = Unit
AreWithin n (f ∷ fs) = (f.vc < n) × AreWithin n fs

abbrev pub AreVcs : ℕ → List ℕ → Type 0
AreVcs n [] = Unit
AreVcs n (c ∷ cs) = (c < n) × AreVcs n cs

pub record IsBalanced (l : Link) : Type 0 where
  pub sender : Inv l.sender
  pub receiver : IsCounted l.receiver
  pub size : l.receiver.size ≡ l.sender.size
  pub vcs : l.receiver.vcs ≡ l.sender.vcs
  pub flits : AreWithin l.sender.vcs l.channel
  pub credits : AreVcs l.sender.vcs l.credits
  pub balance :
      (v : ℕ)
      → l.sender.vc_occupancy v ≡ flying l.channel v + fill l.receiver v + returning l.credits v
  pub owed : (v : ℕ) → 0 < l.sender.vc_occupancy v → IsOwed l.sender v

pub flying-append :
    (fs : List Flit) (f : Flit) (v : ℕ) → flying (fs ++ f ∷ []) v ≡ flying fs v + bit (f.vc == v)
flying-append [] f v = omega arith
flying-append (g ∷ fs) f v = omega (arith, flying-append fs f v)

pub returning-append :
    (cs : List ℕ) (c v : ℕ) → returning (cs ++ c ∷ []) v ≡ returning cs v + bit (c == v)
returning-append [] c v = omega arith
returning-append (d ∷ cs) c v = omega (arith, returning-append cs c v)

pub AreWithin-append :
    (n : ℕ) (fs : List Flit) (f : Flit) → AreWithin n fs → f.vc < n → AreWithin n (fs ++ f ∷ [])
AreWithin-append n [] f h k = (k, tt)
AreWithin-append n (g ∷ fs) f (h, hs) k = (h, AreWithin-append n fs f hs k)

pub AreVcs-append : (n : ℕ) (cs : List ℕ) (c : ℕ) → AreVcs n cs → c < n → AreVcs n (cs ++ c ∷ [])
AreVcs-append n [] c h k = (k, tt)
AreVcs-append n (d ∷ cs) c (h, hs) k = (h, AreVcs-append n cs c hs k)

-- Two results of one call are the same.
pub same_result {ℓ} : {A : Type ℓ} {m : Outcome A} (a b : A) → m ≡ ok a → m ≡ ok b → a ≡ b
same_result a b e h = cc
