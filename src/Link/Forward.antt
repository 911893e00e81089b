-- ===== src/Link/Forward.antt =====
-- Every jump of a compiled filter goes forwards to a label that is placed, so `resolve` can fail
-- in one way only: by an offset that does not fit a byte.
use netdump.Base.{
  ℕ, suc, ◌+◌, ◌≤◌, ◌<◌, ◌≡◌, ap, ◌∙◌, none, some, List, [], ◌∷◌, ◌++◌, length, length-append,
  arith,
}
use netdump.Ast.{
  FilterAst, Protocol, ip, tcp, udp, RelOp, eq, HostAddr, NetAddr, Direction, any, src, dst,
}
use netdump.Bpf.{ld_abs_h, ld_ind_h, ret_k, cbpf_accept, cbpf_reject}
use netdump.Compiler.Host.{ipv6_words}
use netdump.Assembler.{LabelId, Assembler, get}
use netdump.Listing.Event.{
  Event, fresh, ins, jump, here, perform, replay, next_after, advance, advance-append, advance-ge,
}
use netdump.Listing.Proto.{proto_events, len_events}
use netdump.Listing.Host.{host_events, ether_events}
use netdump.Listing.Net.{net_events}
use netdump.Listing.Port.{port_events, range_events, frame_events}
use netdump.Listing.Node.{node_events, program_events}
use netdump.Link.Labels.{Distinct, get-replay}

-- One more than the index of a label, or 0 for a label that is not in the map.
abbrev pub place : List (LabelId × ℕ) → LabelId → ℕ
place labels l = elim (get l labels) [ none ↦ 0 | some i ↦ suc i ]

abbrev pub Spots : (LabelId → ℕ) → ℕ → List Event → Type 0
Spots at n [] = Unit
Spots at n (fresh ∷ es) = Spots at n es
Spots at n (ins i ∷ es) = Spots at (n + 1) es
Spots at n (jump i t f ∷ es) = Spots at (n + 1) es
Spots at n (here l ∷ es) = (at l ≡ n + 1) × Spots at n es

-- Every jump goes forwards, to a label at an index below `top`.
abbrev pub Forward : (LabelId → ℕ) → ℕ → ℕ → List Event → Type 0
Forward at top n [] = Unit
Forward at top n (fresh ∷ es) = Forward at top n es
Forward at top n (ins i ∷ es) = Forward at top (n + 1) es
Forward at top n (jump i t f ∷ es) =
    (n + 1 < at t) × (at t ≤ top) × (n + 1 < at f) × (at f ≤ top) × Forward at top (n + 1) es
Forward at top n (here l ∷ es) = Forward at top n es

pub replay-Spots :
    (es : List Event) (asm : Assembler) (n : ℕ)
    → length asm.insts ≡ n
    → Distinct es
    → Spots (place (replay es asm).labels) n es
unfolding get
replay-Spots [] asm n e d = tt
replay-Spots (fresh ∷ es) asm n e d = replay-Spots es (perform fresh asm) n e d
replay-Spots (ins i ∷ es) asm n e d =
    replay-Spots es (perform (ins i) asm) (n + 1) (omega (arith, length-append asm.insts (i ∷ [])))
      d
replay-Spots (jump i t f ∷ es) asm n e d =
    replay-Spots es (perform (jump i t f) asm) (n + 1)
      (omega (arith, length-append asm.insts (i ∷ []))) d
replay-Spots (here m ∷ es) asm n e (p, d) = (
  ap (λ o. let k : ℕ = elim o [ none ↦ 0 | some i ↦ suc i ] in k)
        (get-replay m es (perform (here m) asm) p)
      ∙ ground arith,
  replay-Spots es (perform (here m) asm) n e d,
)

module _ (at : LabelId → ℕ) where
  pub Spots-append :
      (n : ℕ) (es ds : List Event)
      → Spots at n (es ++ ds)
      → Spots at n es × Spots at (advance n es) ds
  Spots-append n [] ds c = (tt, c)
  Spots-append n (fresh ∷ es) ds c = Spots-append n es ds c
  Spots-append n (ins i ∷ es) ds c = Spots-append (n + 1) es ds c
  Spots-append n (jump i t f ∷ es) ds c = Spots-append (n + 1) es ds c
  Spots-append n (here l ∷ es) ds (e, c) = let (h, k) = Spots-append n es ds c in ((e, h), k)

  module _ (top : ℕ) where
    Forward-append :
        (n : ℕ) (es ds : List Event)
        → Forward at top n es
        → Forward at top (advance n es) ds
        → Forward at top n (es ++ ds)
    Forward-append n [] ds c d = d
    Forward-append n (fresh ∷ es) ds c d = Forward-append n es ds c d
    Forward-append n (ins i ∷ es) ds c d = Forward-append (n + 1) es ds c d
    Forward-append n (jump i t f ∷ es) ds (a, b, p, q, c) d =
        (a, b, p, q, Forward-append (n + 1) es ds c d)
    Forward-append n (here l ∷ es) ds c d = Forward-append n es ds c d

    -- A fragment whose two labels stand behind it jumps forwards.
    abbrev IsForward : ℕ → ℕ → ℕ → List Event → Type 0
    IsForward n t f es =
        Spots at n es
        → advance n es < at t
        → at t ≤ top
        → advance n es < at f
        → at f ≤ top
        → Forward at top n es

    proto-Forward : (p : Protocol) (l t f n : ℕ) → IsForward n t f (proto_events p l t f)
    proto-Forward ip l t f n s a b c d = omega arith
    proto-Forward tcp l t f n s a b c d = omega arith
    proto-Forward udp l t f n s a b c d = omega arith
    proto-Forward _ l t f n s a b c d = omega arith

    len-Forward : (op : RelOp) (len t f n : ℕ) → IsForward n t f (len_events op len t f)
    len-Forward eq len t f n s a b c d = omega arith
    len-Forward _ len t f n s a b c d = omega arith

    host-Forward :
        (h : HostAddr) (dir : Direction) (l t f n : ℕ) → IsForward n t f (host_events h dir l t f)
    unfolding ipv6_words
    host-Forward (HostAddr.v4 h) any l t f n s a b c d = omega arith
    host-Forward (HostAddr.v4 h) src l t f n s a b c d = omega arith
    host-Forward (HostAddr.v4 h) dst l t f n s a b c d = omega arith
    host-Forward (HostAddr.v6 h) any l t f n s a b c d = omega arith
    host-Forward (HostAddr.v6 h) src l t f n s a b c d = omega arith
    host-Forward (HostAddr.v6 h) dst l t f n s a b c d = omega arith

    ether-Forward :
        (h : List ℕ) (dir : Direction) (l t f n : ℕ) → IsForward n t f (ether_events h dir l t f)
    ether-Forward h any l t f n s a b c d = omega arith
    ether-Forward h src l t f n s a b c d = omega arith
    ether-Forward h dst l t f n s a b c d = omega arith

    net-Forward :
        (h : NetAddr) (dir : Direction) (l t f n : ℕ) → IsForward n t f (net_events h dir l t f)
    unfolding ipv6_words
    net-Forward (NetAddr.v4 h m) any l t f n s a b c d = omega arith
    net-Forward (NetAddr.v4 h m) src l t f n s a b c d = omega arith
    net-Forward (NetAddr.v4 h m) dst l t f n s a b c d = omega arith
    net-Forward (NetAddr.v6 h m) any l t f n s a b c d = omega arith
    net-Forward (NetAddr.v6 h m) src l t f n s a b c d = omega arith
    net-Forward (NetAddr.v6 h m) dst l t f n s a b c d = omega arith

    port-Forward :
        (p : ℕ) (dir : Direction) (l t f n : ℕ)
        → IsForward n t f (
            frame_events
              (port_events ld_abs_h 54 56 p dir)
              (port_events ld_ind_h 14 16 p dir)
              l
              t
              f)
    port-Forward p any l t f n s a b c d = omega arith
    port-Forward p src l t f n s a b c d = omega arith
    port-Forward p dst l t f n s a b c d = omega arith

    range-Forward :
        (lo hi : ℕ) (dir : Direction) (l t f n : ℕ)
        → IsForward n t f (
            frame_events
              (range_events ld_abs_h 54 56 lo hi dir)
              (range_events ld_ind_h 14 16 lo hi dir)
              l
              t
              f)
    range-Forward lo hi any l t f n s a b c d = omega arith
    range-Forward lo hi src l t f n s a b c d = omega arith
    range-Forward lo hi dst l t f n s a b c d = omega arith

    pub node-Forward : (ast : FilterAst) (l t f n : ℕ) → IsForward n t f (node_events ast l t f)
    node-Forward (FilterAst.and x y) l t f n s a b c d =
        let es = node_events x (l + 1) l f in
        let ds = node_events y (next_after (l + 1) es) t f in
        let (s₁, (m, s₂)) = Spots-append n es (here l ∷ ds) s in
        let whole = advance-append n es (here l ∷ ds) in
        let rest = advance-ge (advance n es) ds in
        Forward-append n es (here l ∷ ds)
          (node-Forward x (l + 1) l f n s₁ (omega arith) (omega (arith, whole, rest))
            (omega (arith, whole, rest)) d)
          (node-Forward y (next_after (l + 1) es) t f (advance n es) s₂ (omega (arith, whole)) b
            (omega (arith, whole)) d)
    node-Forward (FilterAst.or x y) l t f n s a b c d =
        let es = node_events x (l + 1) t l in
        let ds = node_events y (next_after (l + 1) es) t f in
        let (s₁, (m, s₂)) = Spots-append n es (here l ∷ ds) s in
        let whole = advance-append n es (here l ∷ ds) in
        let rest = advance-ge (advance n es) ds in
        Forward-append n es (here l ∷ ds)
          (node-Forward x (l + 1) t l n s₁ (omega (arith, whole, rest)) b (omega arith)
            (omega (arith, whole, rest)))
          (node-Forward y (next_after (l + 1) es) t f (advance n es) s₂ (omega (arith, whole)) b
            (omega (arith, whole)) d)
    node-Forward (FilterAst.not e) l t f n s a b c d = node-Forward e l f t n s c d a b
    node-Forward (FilterAst.proto p) l t f n s a b c d = proto-Forward p l t f n s a b c d
    node-Forward (FilterAst.host h dir) l t f n s a b c d = host-Forward h dir l t f n s a b c d
    node-Forward (FilterAst.port p dir) l t f n s a b c d = port-Forward p dir l t f n s a b c d
    node-Forward (FilterAst.port_range lo hi dir) l t f n s a b c d =
        range-Forward lo hi dir l t f n s a b c d
    node-Forward (FilterAst.ether_host h dir) l t f n s a b c d =
        ether-Forward h dir l t f n s a b c d
    node-Forward (FilterAst.net h dir) l t f n s a b c d = net-Forward h dir l t f n s a b c d
    node-Forward (FilterAst.len op len) l t f n s a b c d = len-Forward op len t f n s a b c d

    -- The whole program, if `top` is its length.
    pub program-Forward :
        (ast : FilterAst)
        → Spots at 0 (program_events ast)
        → advance 0 (program_events ast) ≤ top
        → Forward at top 0 (program_events ast)
    program-Forward ast s h =
        let es = node_events ast 2 0 1 in
        let tail = here 0 ∷ ins (ret_k cbpf_accept) ∷ here 1 ∷ ins (ret_k cbpf_reject) ∷ [] in
        let whole = advance-append 0 es tail in
        let (s₁, (p, (q, _))) = Spots-append 0 es tail s in
        Forward-append 0 es tail
          (node-Forward ast 2 0 1 0 s₁ (omega arith) (omega (arith, whole)) (omega arith)
            (omega (arith, whole)))
          tt
