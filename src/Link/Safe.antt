-- ===== src/Link/Safe.antt =====
-- A link stays balanced, and neither router meets an error of flow control.
use bzsim.Base.{ℕ, ◌<◌, ◌≡◌, sym, subst, ap, false, List, [], ◌∷◌, ok, arith, total, total-lt}
use bzsim.Flit.{Flit}
use bzsim.VirtualChannel
use bzsim.VirtualChannel.{Vc}
use bzsim.BufferState
use bzsim.BufferState.{BufferState}
use bzsim.BufferState.Protocol.{take_buffer-Inv}
use bzsim.Buffer
use bzsim.Buffer.{Buffer, full}
use bzsim.Buffer.Counts.{fill, not_full, add_flit-ok}
use bzsim.Link.{Link, Step, Reaches, here, onward, takes, sends, delivers, removes, credited}
use bzsim.Link.Balance.{flying, AreWithin, IsBalanced, same_result}
use bzsim.Link.Steps.{
  sender-IsBalanced, sends-IsBalanced, delivers-IsBalanced, removes-IsBalanced, credits_one,
}

-- Every step of the two routers keeps a link balanced: each slot that the sender counts is a flit on
-- the way, a flit in the receiver or a credit on the way back.
pub Step-IsBalanced : {l m : Link} → Step l m → IsBalanced l → IsBalanced m
Step-IsBalanced {l} (takes {s = s} vc tag h free owner spare e) b =
    let (c, e', inv, _, _, _, same) = take_buffer-Inv l.sender vc tag b.sender h free owner spare in
    subst (λ s. IsBalanced (record l { sender = s })) (same_result c s e' e)
      (sender-IsBalanced l c b inv same)
Step-IsBalanced {l} (sends {s = s} now f h full used packet e) b =
    sends-IsBalanced l s now f b h full used packet e
Step-IsBalanced {l} (delivers {r = r} {rest = rest} now f e h) b =
    delivers-IsBalanced l r rest now f b e h
Step-IsBalanced {l} (removes {r = r} vc f h) b = removes-IsBalanced l r vc f b h
Step-IsBalanced {l} (credited {s = s} {rest = rest} now vc e h) b =
    let (c, e', b') = credits_one l now vc rest b e in
    subst (λ s. IsBalanced (record l { sender = s; credits = rest })) (same_result c s e' h) b'

Reaches-IsBalanced : {l m : Link} → Reaches l m → IsBalanced l → IsBalanced m
Reaches-IsBalanced here b = b
Reaches-IsBalanced (onward r s) b = Step-IsBalanced s (Reaches-IsBalanced r b)

room_for :
    (l : Link) (f : Flit) (rest : List Flit)
    → IsBalanced l
    → l.channel ≡ f ∷ rest
    → (f.vc < l.receiver.vcs) × (full l.receiver ≡ false)
room_for l f rest b e =
    let h : f.vc < l.sender.vcs = (subst (AreWithin l.sender.vcs) e b.flits).0 in
    let h' : f.vc < l.receiver.vcs = omega (arith, h, b.vcs) in
    let some : fill l.receiver f.vc < l.sender.vc_occupancy f.vc =
      ground (arith, b.balance f.vc, ap (λ fs. flying fs f.vc) e) in
    let lt : total l.sender.vcs (fill l.receiver) < total l.sender.vcs l.sender.vc_occupancy =
      total-lt l.sender.vcs (fill l.receiver) l.sender.vc_occupancy f.vc
        (λ j k. omega (arith, b.balance j)) h some in
    let few : total l.receiver.vcs (fill l.receiver) < l.receiver.size =
      subst (λ n. total n (fill l.receiver) < l.receiver.size) (sym b.vcs)
        (omega (arith, lt, b.sender.sum, b.sender.fits, b.size)) in
    (h', not_full l.receiver b.receiver few)

-- From a balanced link, whatever the delays and the order of the calls, a flit that arrives finds room in the input
-- buffer: it is accepted whenever its virtual channel accepts it.
pub delivery_succeeds :
    {l m : Link} {rest : List Flit} {d : Vc} (now : ℕ) (f : Flit)
    → IsBalanced l
    → Reaches l m
    → m.channel ≡ f ∷ rest
    → VirtualChannel.add_flit (m.receiver.vc f.vc) now f ≡ ok d
    → (r : Buffer) × (Buffer.add_flit m.receiver now f.vc f ≡ ok r)
delivery_succeeds {m = m} {rest = rest} now f b r e h =
    let (lt, room) = room_for m f rest (Reaches-IsBalanced r b) e in
    (_, add_flit-ok m.receiver now f.vc f room lt h)

-- From a balanced link, whatever the delays and the order of the calls, the sender takes every credit that arrives
-- without an error.
pub credit_succeeds :
    {l m : Link} {rest : List ℕ} (now vc : ℕ)
    → IsBalanced l
    → Reaches l m
    → m.credits ≡ vc ∷ rest
    → (s : BufferState) × (BufferState.process_credit m.sender now (vc ∷ []) ≡ ok s)
credit_succeeds {m = m} {rest = rest} now vc b r e =
    let (s, h, _) = credits_one m now vc rest (Reaches-IsBalanced r b) e in (s, h)
