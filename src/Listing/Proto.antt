-- ===== src/Listing/Proto.antt =====
-- The assembler's calls of the protocol and length predicates.
use netdump.Base.{ℕ, ◌+◌, ◌≡◌, refl, List, [], ◌∷◌, bit_or}
use netdump.Bpf.{new, bpf_ld, bpf_len, bpf_w, ld_abs_h, ld_abs_b, jeq, jgt, jge}
use netdump.Ast.{
  Protocol, ip, ip6, tcp, udp, icmp, icmp6, arp, rarp, RelOp, eq, ne, gt, ge, lt, le, ethertype_ip,
  ethertype_ipv6, ethertype_arp, ethertype_rarp, ipproto_tcp, ipproto_udp, ipproto_icmp,
  ipproto_icmpv6,
}
use netdump.Assembler.{Assembler}
use netdump.Compiler.Proto.{compile_proto, compile_len}
use netdump.Listing.Event.{Event, fresh, ins, jump, here, replay}

abbrev pub ethertype_events : ℕ → ℕ → ℕ → List Event
ethertype_events e t f = ins (ld_abs_h 12) ∷ jump (jeq e) t f ∷ []

-- The test for IPv4 and then for IPv6 that several predicates begin with.
abbrev pub dispatch_events : ℕ → ℕ → List Event
dispatch_events n f =
    ins (ld_abs_h 12)
    ∷ fresh
    ∷ fresh
    ∷ jump (jeq ethertype_ip) n (n + 1)
    ∷ here (n + 1)
    ∷ fresh
    ∷ jump (jeq ethertype_ipv6) (n + 1 + 1) f
    ∷ here (n + 1 + 1)
    ∷ []

abbrev pub transport_events : ℕ → ℕ → ℕ → ℕ → List Event
transport_events p n t f =
    ins (ld_abs_h 12)
    ∷ fresh
    ∷ fresh
    ∷ jump (jeq ethertype_ip) n (n + 1)
    ∷ here (n + 1)
    ∷ fresh
    ∷ jump (jeq ethertype_ipv6) (n + 1 + 1) f
    ∷ here (n + 1 + 1)
    ∷ ins (ld_abs_b 20)
    ∷ jump (jeq p) t f
    ∷ here n
    ∷ ins (ld_abs_b 23)
    ∷ jump (jeq p) t f
    ∷ []

abbrev pub icmp_events : ℕ → ℕ → ℕ → ℕ → ℕ → ℕ → List Event
icmp_events e off p n t f =
    ins (ld_abs_h 12)
    ∷ fresh
    ∷ jump (jeq e) n f
    ∷ here n
    ∷ ins (ld_abs_b off)
    ∷ jump (jeq p) t f
    ∷ []

abbrev pub proto_events : Protocol → ℕ → ℕ → ℕ → List Event
proto_events ip n = ethertype_events ethertype_ip
proto_events ip6 n = ethertype_events ethertype_ipv6
proto_events arp n = ethertype_events ethertype_arp
proto_events rarp n = ethertype_events ethertype_rarp
proto_events tcp n = transport_events ipproto_tcp n
proto_events udp n = transport_events ipproto_udp n
proto_events icmp n = icmp_events ethertype_ip 23 ipproto_icmp n
proto_events icmp6 n = icmp_events ethertype_ipv6 20 ipproto_icmpv6 n

abbrev pub len_event : RelOp → ℕ → ℕ → ℕ → Event
len_event eq len t f = jump (jeq len) t f
len_event ne len t f = jump (jeq len) f t
len_event gt len t f = jump (jgt len) t f
len_event ge len t f = jump (jge len) t f
len_event lt len t f = jump (jge len) f t
len_event le len t f = jump (jgt len) f t

abbrev pub len_events : RelOp → ℕ → ℕ → ℕ → List Event
len_events op len t f =
    ins (new (bit_or (bit_or bpf_ld bpf_len) bpf_w) 0 0 0) ∷ len_event op len t f ∷ []

pub compile_proto-replay :
    (p : Protocol) (t f : ℕ) (asm : Assembler)
    → compile_proto p t f asm ≡ (tt, replay (proto_events p asm.next_label t f) asm)
unfolding compile_proto
compile_proto-replay ip t f asm = refl
compile_proto-replay ip6 t f asm = refl
compile_proto-replay arp t f asm = refl
compile_proto-replay rarp t f asm = refl
compile_proto-replay tcp t f asm = refl
compile_proto-replay udp t f asm = refl
compile_proto-replay icmp t f asm = refl
compile_proto-replay icmp6 t f asm = refl

pub compile_len-replay :
    (op : RelOp) (len t f : ℕ) (asm : Assembler)
    → compile_len op len t f asm ≡ (tt, replay (len_events op len t f) asm)
unfolding compile_len
compile_len-replay eq len t f asm = refl
compile_len-replay ne len t f asm = refl
compile_len-replay gt len t f asm = refl
compile_len-replay ge len t f asm = refl
compile_len-replay lt len t f asm = refl
compile_len-replay le len t f asm = refl
