-- ===== src/Link/Steps.antt =====
-- What each step does to the balance of a link.
use bzsim.Base.{
  ℕ, ◌+◌, ◌-◌, ◌<◌, ◌≡◌, refl, sym, subst, ap, ◌∙◌, true, false, Bool-cases, ◌==◌, update, List, [],
  ◌∷◌, ◌++◌, ok, ◌>>=◌, arith, inl, inr,
}
use bzsim.Flit.{Flit}
use bzsim.BufferPolicy.View.{View}
use bzsim.BufferPolicy.Contract.{HasPacket}
use bzsim.BufferState
use bzsim.BufferState.{BufferState}
use bzsim.BufferState.Credits.{Inv, IsOwed, IsUsed, sending_flit-Inv, credit_vc-Inv}
use bzsim.BufferState.Protocol.{IsSame}
use bzsim.Buffer
use bzsim.Buffer.{Buffer, full}
use bzsim.Buffer.Counts.{fill, Becomes, add_flit-IsCounted, remove_flit-IsCounted}
use bzsim.Link.{Link}
use bzsim.Link.Balance.{
  flying, returning, AreWithin, AreVcs, IsBalanced, flying-append, returning-append,
  AreWithin-append, AreVcs-append, same_result,
}

-- The sender's state has changed, but for what `kept` lists.
pub sender-IsBalanced :
    (l : Link) (s : BufferState)
    → IsBalanced l
    → Inv s
    → IsSame l.sender s
    → IsBalanced (record l { sender = s })
sender-IsBalanced l s b inv same = record {
  sender = inv;
  receiver = b.receiver;
  size = b.size ∙ sym same.size;
  vcs = b.vcs ∙ sym same.vcs;
  flits = subst (λ n. AreWithin n l.channel) (sym same.vcs) b.flits;
  credits = subst (λ n. AreVcs n l.credits) (sym same.vcs) b.credits;
  balance = λ v. ap (λ (g : ℕ → ℕ). g v) same.held ∙ b.balance v;
  owed = λ v h. same.owed v (b.owed v (subst (λ (g : ℕ → ℕ). 0 < g v) same.held h));
}

sent-IsOwed :
    (l : Link) (vc v : ℕ)
    → IsBalanced l
    → IsUsed l.sender vc
    → 0 < update l.sender.vc_occupancy vc (l.sender.vc_occupancy vc + 1) v
    → IsOwed l.sender v
sent-IsOwed l vc v b used h = elim (Bool-cases (vc == v)) [
  | inl same ↦ let e : vc ≡ v = ground arith in inr (subst (IsUsed l.sender) e used)
  | inr other ↦ b.owed v (ground arith)
]

pub sends-IsBalanced :
    (l : Link) (s : BufferState) (now : ℕ) (f : Flit)
    → IsBalanced l
    → f.vc < l.sender.vcs
    → BufferState.is_full_for l.sender now f.vc ≡ ok false
    → IsUsed l.sender f.vc
    → (f.tail ≡ true → HasPacket l.sender.buffer_policy)
    → BufferState.sending_flit l.sender now f ≡ ok s
    → IsBalanced (record l { sender = s; channel = l.channel ++ f ∷ [] })
sends-IsBalanced l s now f b h full used packet e =
    let (c, e', inv, held, vcs, size, owed) =
      sending_flit-Inv l.sender now f b.sender h full used packet in
    subst (λ s. IsBalanced (record l { sender = s; channel = l.channel ++ f ∷ [] }))
      (same_result c s e' e)
      (record {
        sender = inv;
        receiver = b.receiver;
        size = b.size ∙ sym size;
        vcs = b.vcs ∙ sym vcs;
        flits =
            subst (λ n. AreWithin n (l.channel ++ f ∷ [])) (sym vcs)
              (AreWithin-append l.sender.vcs l.channel f b.flits h);
        credits = subst (λ n. AreVcs n l.credits) (sym vcs) b.credits;
        balance = λ v.
            ap (λ (g : ℕ → ℕ). g v) held
            ∙ ground (arith, b.balance v, b.balance f.vc, flying-append l.channel f v);
        owed = λ v k. owed v (sent-IsOwed l f.vc v b used (subst (λ (g : ℕ → ℕ). 0 < g v) held k));
      })

-- Flits of the link after one is put in the receiver, or taken out.
moved :
    (l : Link) (r : Buffer) (vc n v : ℕ)
    → Becomes l.receiver vc n r
    → fill r v ≡ update (fill l.receiver) vc n v
moved l r vc n v (_, _, _, e, o) = elim (Bool-cases (vc == v)) [
  | inl same ↦ let q : vc ≡ v = ground arith in ground (arith, e, ap (fill r) q)
  | inr other ↦ ground (arith, o v)
]

pub delivers-IsBalanced :
    (l : Link) (r : Buffer) (rest : List Flit) (now : ℕ) (f : Flit)
    → IsBalanced l
    → l.channel ≡ f ∷ rest
    → Buffer.add_flit l.receiver now f.vc f ≡ ok r
    → IsBalanced (record l { channel = rest; receiver = r })
delivers-IsBalanced l r rest now f b e h =
    let (i, c) = add_flit-IsCounted l.receiver r now f.vc f b.receiver h in
    record {
      sender = b.sender;
      receiver = i;
      size = c.2 ∙ b.size;
      vcs = c.1 ∙ b.vcs;
      flits = (subst (AreWithin l.sender.vcs) e b.flits).1;
      credits = b.credits;
      balance = λ v. ground (
        arith,
        b.balance v,
        ap (λ fs. flying fs v) e,
        moved l r f.vc (fill l.receiver f.vc + 1) v c,
      );
      owed = b.owed;
    }

pub removes-IsBalanced :
    (l : Link) (r : Buffer) (vc : ℕ) (f : Flit)
    → IsBalanced l
    → Buffer.remove_flit l.receiver vc ≡ ok (r, f)
    → IsBalanced (record l { receiver = r; credits = l.credits ++ vc ∷ [] })
removes-IsBalanced l r vc f b h =
    let (i, some, c) = remove_flit-IsCounted l.receiver r vc f b.receiver h in
    record {
      sender = b.sender;
      receiver = i;
      size = c.2 ∙ b.size;
      vcs = c.1 ∙ b.vcs;
      flits = b.flits;
      credits = AreVcs-append l.sender.vcs l.credits vc b.credits (omega (arith, c.0, b.vcs));
      balance = λ v. ground (
        arith,
        some,
        b.balance v,
        returning-append l.credits vc v,
        moved l r vc (fill l.receiver vc - 1) v c,
      );
      owed = b.owed;
    }

pub credits_one :
    (l : Link) (now vc : ℕ) (rest : List ℕ)
    → IsBalanced l
    → l.credits ≡ vc ∷ rest
    → (s : BufferState) × (BufferState.process_credit l.sender now (vc ∷ []) ≡ ok s)
      × IsBalanced (record l { sender = s; credits = rest })
unfolding BufferState.process_credit
credits_one l now vc rest b e =
    let (h, others) = subst (AreVcs l.sender.vcs) e b.credits in
    let some : 0 < l.sender.vc_occupancy vc =
      ground (arith, b.balance vc, ap (λ cs. returning cs vc) e) in
    let (c, e', inv, v, size, owed) =
      credit_vc-Inv l.sender now vc b.sender h some (b.owed vc some) in
    (
      c,
      rw (e', ◌>>=◌) refl,
      record {
        sender = inv;
        receiver = b.receiver;
        size = b.size ∙ sym size;
        vcs = b.vcs ∙ sym (ap (λ (w : View). w.vcs) v);
        flits = subst (λ (w : View). AreWithin w.vcs l.channel) (sym v) b.flits;
        credits = subst (λ (w : View). AreVcs w.vcs rest) (sym v) others;
        balance = λ j.
            ap (λ (w : View). w.vc_occupancy j) v
            ∙ ground (
              arith,
              b.balance j,
              b.balance vc,
              ap (λ cs. returning cs j) e,
              ap (λ cs. returning cs vc) e,
            );
        owed = λ j k. owed j k (
            b.owed j
              (fewer l.sender.vc_occupancy vc j (subst (λ (w : View). 0 < w.vc_occupancy j) v k)));
      },
    )
  where
    fewer : (g : ℕ → ℕ) (vc j : ℕ) → 0 < update g vc (g vc - 1) j → 0 < g j
    fewer g vc j k = elim (Bool-cases (vc == j)) [
      | inl same ↦ let q : vc ≡ j = ground arith in ground (arith, ap g q)
      | inr other ↦ ground arith
    ]
