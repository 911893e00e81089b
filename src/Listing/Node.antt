-- ===== src/Listing/Node.antt =====
-- The assembler's calls of a whole filter.
use netdump.Base.{ℕ, ◌+◌, ◌≡◌, refl, ap, List, [], ◌∷◌, ◌++◌}
use netdump.Bpf.{ld_abs_h, ld_ind_h, ret_k, cbpf_accept, cbpf_reject}
use netdump.Ast.{FilterAst}
use netdump.Assembler.{Assembler, empty}
use netdump.Compiler.{compile_node, assemble}
use netdump.Listing.Event.{
  Event, fresh, ins, here, perform, replay, next_after, replay-append, next_label-replay,
}
use netdump.Listing.Proto.{proto_events, len_events, compile_proto-replay, compile_len-replay}
use netdump.Listing.Host.{host_events, ether_events, compile_host-replay, compile_ether_host-replay}
use netdump.Listing.Net.{net_events, compile_net-replay}
use netdump.Listing.Port.{
  port_events, range_events, frame_events, compile_port-replay, compile_port_range-replay,
}

abbrev pub node_events : FilterAst → ℕ → ℕ → ℕ → List Event
node_events (FilterAst.and l r) n t f =
    let left = node_events l (n + 1) n f in
    fresh ∷ left ++ (here n ∷ node_events r (next_after (n + 1) left) t f)
node_events (FilterAst.or l r) n t f =
    let left = node_events l (n + 1) t n in
    fresh ∷ left ++ (here n ∷ node_events r (next_after (n + 1) left) t f)
node_events (FilterAst.not e) n t f = node_events e n f t
node_events (FilterAst.proto p) n t f = proto_events p n t f
node_events (FilterAst.host addr dir) n t f = host_events addr dir n t f
node_events (FilterAst.port p dir) n t f =
    frame_events (port_events ld_abs_h 54 56 p dir) (port_events ld_ind_h 14 16 p dir) n t f
node_events (FilterAst.port_range lo hi dir) n t f =
    frame_events (range_events ld_abs_h 54 56 lo hi dir) (range_events ld_ind_h 14 16 lo hi dir) n t
      f
node_events (FilterAst.ether_host addr dir) n t f = ether_events addr dir n t f
node_events (FilterAst.net addr dir) n t f = net_events addr dir n t f
node_events (FilterAst.len op len) n t f = len_events op len t f

-- Two fragments with a label between them, as `&&` and `||` place them.
pair-replay :
    (l r : FilterAst) (lt lf t f : ℕ) (asm : Assembler)
    → compile_node l lt lf (perform fresh asm)
      ≡ (tt, replay (node_events l (asm.next_label + 1) lt lf) (perform fresh asm))
    → ((a : Assembler) → compile_node r t f a ≡ (tt, replay (node_events r a.next_label t f) a))
    → compile_node r t f
        (perform (here asm.next_label) (compile_node l lt lf (perform fresh asm)).1)
      ≡ (
        tt,
        replay
            (node_events l (asm.next_label + 1) lt lf
              ++ (here asm.next_label
                  ∷ node_events r
                      (next_after (asm.next_label + 1) (node_events l (asm.next_label + 1) lt lf))
                      t
                      f))
            (perform fresh asm),
      )
pair-replay l r lt lf t f asm hl hr =
    let left = node_events l (asm.next_label + 1) lt lf in
    let mid = replay left (perform fresh asm) in
    rw (hl, hr, replay-append)
      (ap (λ (k : ℕ). (tt, replay (here asm.next_label ∷ node_events r k t f) mid))
        (next_label-replay left (perform fresh asm)))

-- For every filter and every pair of labels, the compiler of a node makes the listed calls of the
-- assembler, with the labels it creates numbered from the assembler's next one.
pub compile_node-replay :
    (ast : FilterAst) (t f : ℕ) (asm : Assembler)
    → compile_node ast t f asm ≡ (tt, replay (node_events ast asm.next_label t f) asm)
unfolding compile_node
compile_node-replay (FilterAst.and l r) t f asm =
    pair-replay l r asm.next_label f t f asm
      (compile_node-replay l asm.next_label f (perform fresh asm)) (compile_node-replay r t f)
compile_node-replay (FilterAst.or l r) t f asm =
    pair-replay l r t asm.next_label t f asm
      (compile_node-replay l t asm.next_label (perform fresh asm)) (compile_node-replay r t f)
compile_node-replay (FilterAst.not e) t f asm = compile_node-replay e f t asm
compile_node-replay (FilterAst.proto p) t f asm = compile_proto-replay p t f asm
compile_node-replay (FilterAst.host addr dir) t f asm = compile_host-replay addr dir t f asm
compile_node-replay (FilterAst.port p dir) t f asm = compile_port-replay p dir t f asm
compile_node-replay (FilterAst.port_range lo hi dir) t f asm =
    compile_port_range-replay lo hi dir t f asm
compile_node-replay (FilterAst.ether_host addr dir) t f asm =
    compile_ether_host-replay addr dir t f asm
compile_node-replay (FilterAst.net addr dir) t f asm = compile_net-replay addr dir t f asm
compile_node-replay (FilterAst.len op len) t f asm = compile_len-replay op len t f asm

-- The calls of `compile`: label 0 accepts and label 1 rejects.
abbrev pub program_events : FilterAst → List Event
program_events ast =
    fresh ∷ fresh ∷ node_events ast 2 0 1
    ++ (here 0 ∷ ins (ret_k cbpf_accept) ∷ here 1 ∷ ins (ret_k cbpf_reject) ∷ [])

pub assemble-replay : (ast : FilterAst) → (assemble ast empty).1 ≡ replay (program_events ast) empty
unfolding assemble
assemble-replay ast = rw (compile_node-replay, replay-append) refl
