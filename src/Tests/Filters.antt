-- ===== src/Tests/Filters.antt =====
-- Filters compiled and run, after crates/netdump-filter/tests/compiler_codegen.rs.
use netdump.Base.{
  ℕ, ◌+◌, ◌*◌, ◌^◌, ◌≤◌, ◌<◌, ◌≡◌, refl, arith, true, false, some, List, [], ◌∷◌, length,
}
use netdump.Bpf.{Instruction, ret_k, ld_abs_h, ld_abs_b, ld_ind_h, ldx_msh_b, jeq, jgt}
use netdump.Ast.{FilterAst, Protocol, any, dst, NetAddr, RelOp}
use netdump.Assembler.{ok, panic, empty, resolve, offset_too_large}
use netdump.Compiler.{assemble, compile}
use netdump.Compiler.Proto.{compile_proto, compile_len}
use netdump.Compiler.Host.{ipv6_words}
use netdump.Compiler.Net.{compile_net}
use netdump.Compiler.Port.{compile_port, compile_port_range}
use netdump.Vm.{exec, read_u8, read_u16}
use netdump.Meaning.{matches, header_length}
use netdump.Listing.Node.{program_events, assemble-replay}
use netdump.Link.Code.{Code, index_of}
use netdump.Link.Resolve.{resolve-Code}
use netdump.Link.Panic.{emitted, compile-panic}
use netdump.Link.Fit.{compile-Fit}
use netdump.Vm.Total.{AllFit}
use netdump.Correct.Compile.{exec-compile, compile-decides}
use netdump.Correct.Gaps.{range-source_below, net-host_bits, masks_cover, chain, compile-chain}

-- The instructions of a filter that compiles.
abbrev compiled : FilterAst → List Instruction
compiled ast = elim (compile ast) [ ok prog ↦ prog | panic _ ↦ [] ]

-- `tcp and dst port 80`.
abbrev web : FilterAst
web = FilterAst.and (FilterAst.proto Protocol.tcp) (FilterAst.port 80 dst)

-- An IPv4 packet of a protocol, from 10.0.0.1 to 10.0.0.2, between two ports below 256.
abbrev packet_v4 : ℕ → ℕ → ℕ → List ℕ
packet_v4 proto from to =
    1 ∷ 2 ∷ 3 ∷ 4 ∷ 5 ∷ 6 ∷ 7 ∷ 8 ∷ 9 ∷ 10 ∷ 11 ∷ 12 ∷ 8 ∷ 0 ∷ 0x45 ∷ 0 ∷ 0 ∷ 40 ∷ 0 ∷ 0 ∷ 0 ∷ 0
    ∷ 64 ∷ proto ∷ 0 ∷ 0 ∷ 10 ∷ 0 ∷ 0 ∷ 1 ∷ 10 ∷ 0 ∷ 0 ∷ 2 ∷ 0 ∷ from ∷ 0 ∷ to ∷ []

exec-web_match : exec (compiled web) (packet_v4 6 99 80) ≡ some true
unfolding compile exec compile_port compile_proto ld_abs_h jeq read_u16 ld_abs_b read_u8 ldx_msh_b
    ld_ind_h ret_k
exec-web_match = refl

exec-web_port : exec (compiled web) (packet_v4 6 80 99) ≡ some false
unfolding compile exec compile_port compile_proto ld_abs_h jeq read_u16 ld_abs_b read_u8 ldx_msh_b
    ld_ind_h ret_k
exec-web_port = refl

exec-web_proto : exec (compiled web) (packet_v4 17 99 80) ≡ some false
unfolding compile exec compile_port compile_proto ld_abs_h jeq read_u16 ld_abs_b read_u8 ret_k
exec-web_proto = refl

exec_len : exec (compiled (FilterAst.len RelOp.gt 38)) (packet_v4 6 1 2) ≡ some false
unfolding compile exec compile_len jgt ret_k
exec_len = refl

web_compiles : compile web ≡ ok (compiled web)
unfolding compile compile_port compile_proto
web_compiles = refl

web-emitted : emitted web ≤ 257
unfolding assemble compile_port compile_proto
web-emitted = omega arith

compile-decides_example :
    (prog : List Instruction) × (compile web ≡ ok prog)
    × ((packet : List ℕ) → exec prog packet ≡ some (matches packet web))
compile-decides_example = compile-decides web (tt, omega arith) web-emitted

exec-compile_example :
    exec (compiled web) (packet_v4 6 99 80) ≡ some (matches (packet_v4 6 99 80) web)
exec-compile_example =
    exec-compile web (packet_v4 6 99 80) (tt, omega arith) (omega (arith, web-emitted)) web_compiles

compile-Fit_example : AllFit (compiled web) × (length (compiled web) ≡ emitted web)
compile-Fit_example = compile-Fit web (tt, omega arith) web_compiles

web_resolves : resolve (assemble web empty).1 ≡ ok (compiled web)
unfolding compile compile_port compile_proto
web_resolves = refl

resolve-Code_example :
    Code (compiled web) (index_of (assemble web empty).1.labels) 0 (program_events web)
resolve-Code_example =
    resolve-Code (program_events web) (assemble web empty).1 (assemble-replay web) web_resolves

compile-chain_example : compile (chain 130) ≡ panic offset_too_large
compile-chain_example = compile-chain 130 (omega arith)

compile-panic_example : (offset_too_large ≡ offset_too_large) × (257 < emitted (chain 128))
compile-panic_example = compile-panic (chain 128) (compile-chain 128 (omega arith))

-- Source port 1 and destination port 100, for the range from 50 to 150.
abbrev some_range : FilterAst
some_range = FilterAst.port_range 50 150 any

range_compiles : compile some_range ≡ ok (compiled some_range)
unfolding compile compile_port_range
range_compiles = refl

port_54_below : read_u16 (packet_v4 6 1 100) 54 < 50
unfolding read_u16
port_54_below = omega arith

port_below : read_u16 (packet_v4 6 1 100) (header_length (packet_v4 6 1 100) + 14) < 50
unfolding read_u16 read_u8
port_below = omega arith

range-source_below_example : exec (compiled some_range) (packet_v4 6 1 100) ≡ some false
range-source_below_example =
    range-source_below 50 150 (packet_v4 6 1 100) (omega arith) (omega arith) range_compiles
      port_54_below port_below

-- `net 2001:db8::1/32`.
abbrev some_net : FilterAst
some_net = FilterAst.net (NetAddr.v6 (0x20010db8 * 2 ^ 96 + 1) (0xffffffff * 2 ^ 96)) any

net_compiles : compile some_net ≡ ok (compiled some_net)
unfolding compile compile_net
net_compiles = refl

net_not_covered :
    masks_cover (ipv6_words (0x20010db8 * 2 ^ 96 + 1)) (ipv6_words (0xffffffff * 2 ^ 96)) ≡ false
unfolding ipv6_words
net_not_covered = refl

-- An IPv6 packet of that network.
abbrev packet_v6 : List ℕ
packet_v6 =
    1 ∷ 2 ∷ 3 ∷ 4 ∷ 5 ∷ 6 ∷ 7 ∷ 8 ∷ 9 ∷ 10 ∷ 11 ∷ 12 ∷ 0x86 ∷ 0xdd ∷ 0x60 ∷ 0 ∷ 0 ∷ 0 ∷ 0 ∷ 0 ∷ 6
    ∷ 64 ∷ 0x20 ∷ 0x01 ∷ 0x0d ∷ 0xb8 ∷ 0 ∷ 0 ∷ 0 ∷ 0 ∷ 0 ∷ 0 ∷ 0 ∷ 0 ∷ 0 ∷ 0 ∷ 0 ∷ 1 ∷ []

net-host_bits_example : exec (compiled some_net) packet_v6 ≡ some false
net-host_bits_example =
    net-host_bits (0x20010db8 * 2 ^ 96 + 1) (0xffffffff * 2 ^ 96) any packet_v6 (omega arith)
      (omega arith) net_not_covered net_compiles
