-- ===== src/Compiler/Proto.antt =====
-- crates/netdump-filter/src/compiler.rs: the protocol and length predicates.
use netdump.Base.{ℕ, bit_or}
use netdump.Bpf.{new, bpf_ld, bpf_len, bpf_w, ld_abs_h, ld_abs_b, jeq, jgt, jge}
use netdump.Ast.{
  Protocol, ip, ip6, tcp, udp, icmp, icmp6, arp, rarp, RelOp, eq, ne, gt, ge, lt, le, ethertype_ip,
  ethertype_ipv6, ethertype_arp, ethertype_rarp, ipproto_tcp, ipproto_udp, ipproto_icmp,
  ipproto_icmpv6,
}
use netdump.Assembler.{LabelId, Asm, ◌>>=◌, ◌>>◌, done, new_label, emit, emit_jump, place_here}

unfoldable pub check_ethertype : ℕ → LabelId → LabelId → Asm (Unit {0})
check_ethertype ethertype accept reject = do
  emit (ld_abs_h 12)
  emit_jump (jeq ethertype) accept reject
  done

-- Called for the number of TCP or of UDP only, so the source's `unreachable!` is not reached.
unfoldable pub compile_transport_proto : ℕ → LabelId → LabelId → Asm (Unit {0})
compile_transport_proto proto_num accept reject = do
  emit (ld_abs_h 12)
  ipv4_label ← new_label
  check_v6 ← new_label
  emit_jump (jeq ethertype_ip) ipv4_label check_v6
  place_here check_v6
  ipv6_label ← new_label
  emit_jump (jeq ethertype_ipv6) ipv6_label reject
  place_here ipv6_label
  emit (ld_abs_b 20)
  emit_jump (jeq proto_num) accept reject
  place_here ipv4_label
  emit (ld_abs_b 23)
  emit_jump (jeq proto_num) accept reject
  done

unfoldable pub compile_icmpv4 : LabelId → LabelId → Asm (Unit {0})
compile_icmpv4 accept reject = do
  emit (ld_abs_h 12)
  proto_check ← new_label
  emit_jump (jeq ethertype_ip) proto_check reject
  place_here proto_check
  emit (ld_abs_b 23)
  emit_jump (jeq ipproto_icmp) accept reject
  done

unfoldable pub compile_icmpv6 : LabelId → LabelId → Asm (Unit {0})
compile_icmpv6 accept reject = do
  emit (ld_abs_h 12)
  proto_check ← new_label
  emit_jump (jeq ethertype_ipv6) proto_check reject
  place_here proto_check
  emit (ld_abs_b 20)
  emit_jump (jeq ipproto_icmpv6) accept reject
  done

unfoldable pub compile_proto : Protocol → LabelId → LabelId → Asm (Unit {0})
unfolding check_ethertype compile_transport_proto compile_icmpv4 compile_icmpv6
compile_proto ip accept reject = check_ethertype ethertype_ip accept reject
compile_proto ip6 accept reject = check_ethertype ethertype_ipv6 accept reject
compile_proto arp accept reject = check_ethertype ethertype_arp accept reject
compile_proto rarp accept reject = check_ethertype ethertype_rarp accept reject
compile_proto tcp accept reject = compile_transport_proto ipproto_tcp accept reject
compile_proto udp accept reject = compile_transport_proto ipproto_udp accept reject
compile_proto icmp accept reject = compile_icmpv4 accept reject
compile_proto icmp6 accept reject = compile_icmpv6 accept reject

-- The jump that compares the length in A.
abbrev pub len_jump : RelOp → ℕ → LabelId → LabelId → Asm ℕ
len_jump eq len accept reject = emit_jump (jeq len) accept reject
len_jump ne len accept reject = emit_jump (jeq len) reject accept
len_jump gt len accept reject = emit_jump (jgt len) accept reject
len_jump ge len accept reject = emit_jump (jge len) accept reject
len_jump lt len accept reject = emit_jump (jge len) reject accept
len_jump le len accept reject = emit_jump (jgt len) reject accept

unfoldable pub compile_len : RelOp → ℕ → LabelId → LabelId → Asm (Unit {0})
compile_len op len accept reject = do
  emit (new (bit_or (bit_or bpf_ld bpf_len) bpf_w) 0 0 0)
  len_jump op len accept reject
  done
