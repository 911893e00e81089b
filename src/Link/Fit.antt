-- ===== src/Link/Fit.antt =====
-- The fields of a compiled program are in the range of their types, and its length is that of the
-- instructions emitted.
use netdump.Base.{
  ℕ, suc, ◌+◌, ◌^◌, ◌<◌, ◌≡◌, refl, sym, ap, ◌∙◌, subst, List, [], ◌∷◌, ◌++◌, length, byte_at,
  bit_and-le, arith,
}
use netdump.Bpf.{
  Instruction, ld_abs_h, ld_abs_b, ld_abs_w, ld_ind_h, ldx_msh_b, jeq, jge, jgt, ret_k, cbpf_accept,
  cbpf_reject,
}
use netdump.Ast.{FilterAst, Protocol, ip, RelOp, eq, HostAddr, NetAddr, Direction, any, src, dst}
use netdump.Assembler.{LabelId, offset, ok, resolve, resolve_loop, empty, Assembler}
use netdump.Compiler.{compile}
use netdump.Compiler.Host.{ipv6_words}
use netdump.Compiler.Net.{alu_and}
use netdump.Vm.Total.{Fits, AllFit}
use netdump.Listing.Event.{Event, fresh, ins, jump, here, replay, next_after}
use netdump.Listing.Proto.{proto_events, len_events}
use netdump.Listing.Host.{host_events, ether_events}
use netdump.Listing.Net.{net_events}
use netdump.Listing.Port.{port_events, range_events, frame_events}
use netdump.Listing.Node.{node_events, program_events, assemble-replay}
use netdump.Link.Resolve.{
  raw, linked, insts-replay, pending-replay, resolve-linked, bind_inv, ok_inj, offset_inv,
}
use netdump.Link.Panic.{emitted}

-- The numbers of a filter are in the range of their types, as the source's types guarantee.
abbrev pub IsFilter : FilterAst → Type 0
IsFilter (FilterAst.and l r) = IsFilter l × IsFilter r
IsFilter (FilterAst.or l r) = IsFilter l × IsFilter r
IsFilter (FilterAst.not e) = IsFilter e
IsFilter (FilterAst.proto p) = Unit
IsFilter (FilterAst.host (HostAddr.v4 a) dir) = a < 2 ^ 32
IsFilter (FilterAst.host (HostAddr.v6 a) dir) = a < 2 ^ 128
IsFilter (FilterAst.port p dir) = p < 2 ^ 16
IsFilter (FilterAst.port_range lo hi dir) = (lo < 2 ^ 16) × (hi < 2 ^ 16)
IsFilter (FilterAst.ether_host addr dir) =
    (length addr ≡ 6)
    × (byte_at addr 0 < 256)
    × (byte_at addr 1 < 256)
    × (byte_at addr 2 < 256)
    × (byte_at addr 3 < 256)
    × (byte_at addr 4 < 256)
    × (byte_at addr 5 < 256)
IsFilter (FilterAst.net (NetAddr.v4 a m) dir) = (a < 2 ^ 32) × (m < 2 ^ 32)
IsFilter (FilterAst.net (NetAddr.v6 a m) dir) = (a < 2 ^ 128) × (m < 2 ^ 128)
IsFilter (FilterAst.len op n) = n < 2 ^ 32

abbrev EventsFit : List Event → Type 0
EventsFit [] = Unit
EventsFit (fresh ∷ es) = EventsFit es
EventsFit (ins i ∷ es) = Fits i × EventsFit es
EventsFit (jump i t f ∷ es) = (i.k < 2 ^ 32) × EventsFit es
EventsFit (here l ∷ es) = EventsFit es

EventsFit-append : (es ds : List Event) → EventsFit es → EventsFit ds → EventsFit (es ++ ds)
EventsFit-append [] ds c d = d
EventsFit-append (fresh ∷ es) ds c d = EventsFit-append es ds c d
EventsFit-append (ins i ∷ es) ds (a, c) d = (a, EventsFit-append es ds c d)
EventsFit-append (jump i t f ∷ es) ds (a, c) d = (a, EventsFit-append es ds c d)
EventsFit-append (here l ∷ es) ds c d = EventsFit-append es ds c d

proto-Fit : (p : Protocol) (l t f : ℕ) → EventsFit (proto_events p l t f)
unfolding ld_abs_h ld_abs_b jeq
proto-Fit ip l t f = omega arith
proto-Fit _ l t f = omega arith

len-Fit : (op : RelOp) (n t f : ℕ) → n < 2 ^ 32 → EventsFit (len_events op n t f)
unfolding jeq jge jgt
len-Fit eq n t f h = omega arith
len-Fit _ n t f h = omega arith

host-Fit :
    (a : HostAddr) (dir : Direction) (l t f : ℕ)
    → IsFilter (FilterAst.host a dir)
    → EventsFit (host_events a dir l t f)
unfolding ipv6_words ld_abs_h ld_abs_w jeq
host-Fit (HostAddr.v4 a) any l t f h = omega arith
host-Fit (HostAddr.v4 a) src l t f h = omega arith
host-Fit (HostAddr.v4 a) dst l t f h = omega arith
host-Fit (HostAddr.v6 a) any l t f h = omega arith
host-Fit (HostAddr.v6 a) src l t f h = omega arith
host-Fit (HostAddr.v6 a) dst l t f h = omega arith

ether-Fit :
    (a : List ℕ) (dir : Direction) (l t f : ℕ)
    → IsFilter (FilterAst.ether_host a dir)
    → EventsFit (ether_events a dir l t f)
unfolding ld_abs_h ld_abs_w jeq
ether-Fit a any l t f h = omega arith
ether-Fit a src l t f h = omega arith
ether-Fit a dst l t f h = omega arith

net-Fit :
    (a : NetAddr) (dir : Direction) (l t f : ℕ)
    → IsFilter (FilterAst.net a dir)
    → EventsFit (net_events a dir l t f)
unfolding ipv6_words ld_abs_h ld_abs_w jeq alu_and
net-Fit (NetAddr.v4 a m) any l t f h = omega (arith, bit_and-le a m)
net-Fit (NetAddr.v4 a m) src l t f h = omega (arith, bit_and-le a m)
net-Fit (NetAddr.v4 a m) dst l t f h = omega (arith, bit_and-le a m)
net-Fit (NetAddr.v6 a m) any l t f h = omega arith
net-Fit (NetAddr.v6 a m) src l t f h = omega arith
net-Fit (NetAddr.v6 a m) dst l t f h = omega arith

port-Fit :
    (p : ℕ) (dir : Direction) (l t f : ℕ)
    → p < 2 ^ 16
    → EventsFit
        (frame_events (port_events ld_abs_h 54 56 p dir) (port_events ld_ind_h 14 16 p dir) l t f)
unfolding ld_abs_h ld_abs_b ld_ind_h ldx_msh_b jeq
port-Fit p any l t f h = omega arith
port-Fit p src l t f h = omega arith
port-Fit p dst l t f h = omega arith

range-Fit :
    (lo hi : ℕ) (dir : Direction) (l t f : ℕ)
    → lo < 2 ^ 16
    → hi < 2 ^ 16
    → EventsFit (
        frame_events
          (range_events ld_abs_h 54 56 lo hi dir)
          (range_events ld_ind_h 14 16 lo hi dir)
          l
          t
          f)
unfolding ld_abs_h ld_abs_b ld_ind_h ldx_msh_b jeq jge jgt
range-Fit lo hi any l t f h k = omega arith
range-Fit lo hi src l t f h k = omega arith
range-Fit lo hi dst l t f h k = omega arith

node-Fit : (ast : FilterAst) (l t f : ℕ) → IsFilter ast → EventsFit (node_events ast l t f)
node-Fit (FilterAst.and x y) l t f (p, q) =
    let es = node_events x (l + 1) l f in
    EventsFit-append es (here l ∷ node_events y (next_after (l + 1) es) t f)
      (node-Fit x (l + 1) l f p) (node-Fit y (next_after (l + 1) es) t f q)
node-Fit (FilterAst.or x y) l t f (p, q) =
    let es = node_events x (l + 1) t l in
    EventsFit-append es (here l ∷ node_events y (next_after (l + 1) es) t f)
      (node-Fit x (l + 1) t l p) (node-Fit y (next_after (l + 1) es) t f q)
node-Fit (FilterAst.not e) l t f h = node-Fit e l f t h
node-Fit (FilterAst.proto p) l t f h = proto-Fit p l t f
node-Fit (FilterAst.host a dir) l t f h = host-Fit a dir l t f h
node-Fit (FilterAst.port p dir) l t f h = port-Fit p dir l t f h
node-Fit (FilterAst.port_range lo hi dir) l t f (h, k) = range-Fit lo hi dir l t f h k
node-Fit (FilterAst.ether_host a dir) l t f h = ether-Fit a dir l t f h
node-Fit (FilterAst.net a dir) l t f h = net-Fit a dir l t f h
node-Fit (FilterAst.len op n) l t f h = len-Fit op n t f h

-- What one pass over the calls returns fits, and has an instruction for each that was emitted.
linked-Fit :
    (labels : List (LabelId × ℕ)) (n : ℕ) (es : List Event) {q : List Instruction}
    → EventsFit es
    → linked labels n es ≡ ok q
    → AllFit q × (length q ≡ length (raw es))
unfolding linked
linked-Fit labels n [] h e =
    subst (λ (z : List Instruction). AllFit z × (length z ≡ 0)) (ok_inj labels e) (tt, refl)
linked-Fit labels n (fresh ∷ es) h e = linked-Fit labels n es h e
linked-Fit labels n (here l ∷ es) h e = linked-Fit labels n es h e
linked-Fit labels n (ins i ∷ es) (fit, h) e =
    let (rest, hr, hq) = bind_inv labels (linked labels (n + 1) es) (λ q. ok (i ∷ q)) e in
    let (a, b) = linked-Fit labels (n + 1) es h hr in
    subst (λ (z : List Instruction). AllFit z × (length z ≡ length (raw (ins i ∷ es))))
      (ok_inj labels hq) ((fit, a), ap suc b)
linked-Fit labels n (jump i t f ∷ es) (fit, h) e =
    let (jt, ht, h₁) = bind_inv labels (offset labels n t) _ e in
    let (jf, hf, h₂) = bind_inv labels (offset labels n f) _ h₁ in
    let i' : Instruction = record i { jt = jt; jf = jf } in
    let (rest, hr, hq) = bind_inv labels (linked labels (n + 1) es) (λ q. ok (i' ∷ q)) h₂ in
    let (a, b) = linked-Fit labels (n + 1) es h hr in
    subst (λ (z : List Instruction). AllFit z × (length z ≡ length (raw (jump i t f ∷ es))))
      (ok_inj labels hq)
      (
        (
          (omega (arith, offset_inv labels n t ht), omega (arith, offset_inv labels n f hf), fit),
          a,
        ),
        ap suc b,
      )

-- The fields of a compiled program are in the range of their types, and it has as many instructions
-- as the compiler emitted, when the filter's numbers are in the range of theirs.
pub compile-Fit :
    (ast : FilterAst) {prog : List Instruction}
    → IsFilter ast
    → compile ast ≡ ok prog
    → AllFit prog × (length prog ≡ emitted ast)
unfolding compile resolve ret_k
compile-Fit ast {prog} h e =
    let es = program_events ast in
    let asm = replay es empty in
    let result : resolve_loop asm.labels asm.pending asm.insts ≡ linked asm.labels 0 es =
      (λ i. resolve_loop asm.labels (pending-replay es empty i) (insts-replay es empty i))
      ∙ resolve-linked asm.labels es in
    let same = assemble-replay ast in
    let back : resolve_loop asm.labels asm.pending asm.insts ≡ ok prog =
      (λ i. resolve (sym same i)) ∙ e in
    let (a, b) =
      linked-Fit asm.labels 0 es
        (EventsFit-append (node_events ast 2 0 1)
          (here 0 ∷ ins (ret_k cbpf_accept) ∷ here 1 ∷ ins (ret_k cbpf_reject) ∷ [])
          (node-Fit ast 2 0 1 h) (omega arith))
        (sym result ∙ back) in
    (
      a,
      b
          ∙ ap length (sym (insts-replay es empty))
          ∙ ap (λ (z : Assembler). length z.insts) (sym same),
    )
