-- ===== src/VirtualChannel/Order.antt =====
-- First in, first out.
use bzsim.Base.{arith, ℕ, ◌≡◌, sym, to_int, ap, ◌∙◌, pos, List, [], ◌∷◌, ◌++◌, map, ok, >>=-eq-ok}
use mathlib.Core.Path.{ap₂}
use mathlib.Core.List.{append-nil}
use bzsim.Flit.{Flit}
use bzsim.VirtualChannel.{
  Vc, PrioType, local_age_based, hop_count_based, queue_length_based, no_priority, other, expect,
  stamp, update_priority, add_flit, remove_from, remove_flit,
}
use bzsim.VirtualChannel.Packets.{update_priority-pri}

-- A run of calls: the flits put into the virtual channel, and those taken out.
pub data Run : Vc → List Flit → List Flit → Vc → Type 0 where
  at_rest : {v : Vc} → Run v [] [] v
  arrives :
      {v w z : Vc} {ins outs : List Flit} (now : ℕ) (f : Flit)
      → add_flit v now f ≡ ok w
      → Run w ins outs z
      → Run v (f ∷ ins) outs z
  departs :
      {v w z : Vc} {ins outs : List Flit} (f : Flit)
      → remove_flit v ≡ ok (w, f)
      → Run w ins outs z
      → Run v ins (f ∷ outs) z

-- The flit but for its priority, which the virtual channel may set.
abbrev pub plain : Flit → Flit
plain f = record f { pri = pos 0 }

stamp-plain : (t : PrioType) (now : ℕ) (f g : Flit) → stamp t now f ≡ ok g → plain g ≡ plain f
unfolding stamp
stamp-plain local_age_based now f g e = ground arith
stamp-plain hop_count_based now f g e = ground arith
stamp-plain queue_length_based now f g e = ground arith
stamp-plain no_priority now f g e = ground arith
stamp-plain other now f g e = ground arith

-- `AddFlit` puts the flit behind all others.
pub buffer-add_flit :
    (v w : Vc) (now : ℕ) (f : Flit)
    → add_flit v now f ≡ ok w
    → (g : Flit) × (plain g ≡ plain f) × (w.buffer ≡ v.buffer ++ g ∷ [])
unfolding add_flit
buffer-add_flit v w now f e =
    let (p, _, e') = >>=-eq-ok (expect v.expected_pid f) _ e in
    let (g, h, e'') = >>=-eq-ok (stamp v.pri_type now f) _ e' in
    let u : Vc = record v { expected_pid = p; buffer = v.buffer ++ g ∷ [] } in
    let same : update_priority u ≡ w = cc in
    (
      g,
      stamp-plain v.pri_type now f g h,
      ap (λ (x : Vc). x.buffer) (sym same ∙ update_priority-pri u),
    )

-- `RemoveFlit` takes the front.
pub buffer-remove_flit : (v w : Vc) (f : Flit) → remove_flit v ≡ ok (w, f) → v.buffer ≡ f ∷ w.buffer
unfolding remove_flit remove_from
buffer-remove_flit v w f = go v.buffer
  where
    go : (b : List Flit) → remove_from v b ≡ ok (w, f) → b ≡ f ∷ w.buffer
    go [] e = absurd cc
    go (g ∷ rest) e =
        let u : Vc = record v { buffer = rest; last_id = to_int g.id; last_pid = to_int g.pid } in
        let front : g ≡ f = cc in
        let same : update_priority u ≡ w = cc in
        ap₂ ◌∷◌ front (sym (ap (λ (x : Vc). x.buffer) (sym same ∙ update_priority-pri u)))

stamped :
    (b ins : List Flit) (f g : Flit)
    → plain g ≡ plain f
    → map plain (b ++ f ∷ ins) ≡ map plain ((b ++ g ∷ []) ++ ins)
stamped [] ins f g e = ap (λ h. h ∷ map plain ins) (sym e)
stamped (x ∷ b) ins f g e = ap (◌∷◌ (plain x)) (stamped b ins f g e)

-- Whatever the order of the calls, the flits leave in the order of their arrival, behind those that
-- were there at first, and those that have not left are in the queue. Only priorities may differ.
pub first_in_first_out :
    {v w : Vc} {ins outs : List Flit}
    → Run v ins outs w
    → map plain (v.buffer ++ ins) ≡ map plain (outs ++ w.buffer)
first_in_first_out {v} at_rest = ap (map plain) (append-nil v.buffer)
first_in_first_out {v} {outs = outs} (arrives {w = u} {ins = ins} now f e r) =
    let (g, p, b) = buffer-add_flit v u now f e in
    stamped v.buffer ins f g p ∙ ap (λ l. map plain (l ++ ins)) (sym b) ∙ first_in_first_out r
first_in_first_out {v} {ins = ins} (departs {w = u} f e r) =
    ap (λ l. map plain (l ++ ins)) (buffer-remove_flit v u f e)
    ∙ ap (◌∷◌ (plain f)) (first_in_first_out r)
