-- ===== src/Compiler/Port.antt =====
-- crates/netdump-filter/src/compiler.rs: the port and port range predicates.
use netdump.Base.{ℕ}
use netdump.Bpf.{ld_abs_h, ld_abs_b, ld_ind_h, ldx_msh_b, jeq, jgt, jge}
use netdump.Ast.{Direction, any, src, dst, ethertype_ip, ethertype_ipv6, ipproto_tcp, ipproto_udp}
use netdump.Assembler.{LabelId, Asm, ◌>>=◌, ◌>>◌, done, new_label, emit, emit_jump, place_here}

unfoldable pub compare_port_abs : ℕ → ℕ → ℕ → Direction → LabelId → LabelId → Asm (Unit {0})
compare_port_abs src_off dst_off port any accept reject = do
  emit (ld_abs_h src_off)
  dst_check ← new_label
  emit_jump (jeq port) accept dst_check
  place_here dst_check
  emit (ld_abs_h dst_off)
  emit_jump (jeq port) accept reject
  done
compare_port_abs src_off dst_off port src accept reject = do
  emit (ld_abs_h src_off)
  emit_jump (jeq port) accept reject
  done
compare_port_abs src_off dst_off port dst accept reject = do
  emit (ld_abs_h dst_off)
  emit_jump (jeq port) accept reject
  done

unfoldable pub compare_port_ind : ℕ → ℕ → ℕ → Direction → LabelId → LabelId → Asm (Unit {0})
compare_port_ind src_off dst_off port any accept reject = do
  emit (ld_ind_h src_off)
  dst_check ← new_label
  emit_jump (jeq port) accept dst_check
  place_here dst_check
  emit (ld_ind_h dst_off)
  emit_jump (jeq port) accept reject
  done
compare_port_ind src_off dst_off port src accept reject = do
  emit (ld_ind_h src_off)
  emit_jump (jeq port) accept reject
  done
compare_port_ind src_off dst_off port dst accept reject = do
  emit (ld_ind_h dst_off)
  emit_jump (jeq port) accept reject
  done

unfoldable pub compare_portrange_abs :
    ℕ → ℕ → ℕ → ℕ → Direction → LabelId → LabelId → Asm (Unit {0})
compare_portrange_abs src_off dst_off start end any accept reject = do
  emit (ld_abs_h src_off)
  src_in ← new_label
  emit_jump (jge start) src_in reject
  place_here src_in
  src_out ← new_label
  emit_jump (jgt end) src_out accept
  place_here src_out
  emit (ld_abs_h dst_off)
  dst_in ← new_label
  emit_jump (jge start) dst_in reject
  place_here dst_in
  emit_jump (jgt end) reject accept
  done
compare_portrange_abs src_off dst_off start end src accept reject = do
  emit (ld_abs_h src_off)
  in_range ← new_label
  emit_jump (jge start) in_range reject
  place_here in_range
  emit_jump (jgt end) reject accept
  done
compare_portrange_abs src_off dst_off start end dst accept reject = do
  emit (ld_abs_h dst_off)
  in_range ← new_label
  emit_jump (jge start) in_range reject
  place_here in_range
  emit_jump (jgt end) reject accept
  done

unfoldable pub compare_portrange_ind :
    ℕ → ℕ → ℕ → ℕ → Direction → LabelId → LabelId → Asm (Unit {0})
compare_portrange_ind src_off dst_off start end any accept reject = do
  emit (ld_ind_h src_off)
  src_in ← new_label
  emit_jump (jge start) src_in reject
  place_here src_in
  src_out ← new_label
  emit_jump (jgt end) src_out accept
  place_here src_out
  emit (ld_ind_h dst_off)
  dst_in ← new_label
  emit_jump (jge start) dst_in reject
  place_here dst_in
  emit_jump (jgt end) reject accept
  done
compare_portrange_ind src_off dst_off start end src accept reject = do
  emit (ld_ind_h src_off)
  in_range ← new_label
  emit_jump (jge start) in_range reject
  place_here in_range
  emit_jump (jgt end) reject accept
  done
compare_portrange_ind src_off dst_off start end dst accept reject = do
  emit (ld_ind_h dst_off)
  in_range ← new_label
  emit_jump (jge start) in_range reject
  place_here in_range
  emit_jump (jgt end) reject accept
  done

unfoldable pub check_transport_and_compare_ports :
    ℕ → ℕ → ℕ → Direction → LabelId → LabelId → Asm (Unit {0})
unfolding compare_port_abs
check_transport_and_compare_ports src_off dst_off port dir accept reject = do
  emit (ld_abs_b 20)
  udp_check ← new_label
  port_check ← new_label
  emit_jump (jeq ipproto_tcp) port_check udp_check
  place_here udp_check
  emit_jump (jeq ipproto_udp) port_check reject
  place_here port_check
  compare_port_abs src_off dst_off port dir accept reject

unfoldable pub check_transport_and_compare_portrange :
    ℕ → ℕ → ℕ → ℕ → Direction → LabelId → LabelId → Asm (Unit {0})
unfolding compare_portrange_abs
check_transport_and_compare_portrange src_off dst_off start end dir accept reject = do
  emit (ld_abs_b 20)
  udp_check ← new_label
  port_check ← new_label
  emit_jump (jeq ipproto_tcp) port_check udp_check
  place_here udp_check
  emit_jump (jeq ipproto_udp) port_check reject
  place_here port_check
  compare_portrange_abs src_off dst_off start end dir accept reject

unfoldable pub compile_port : ℕ → Direction → LabelId → LabelId → Asm (Unit {0})
unfolding check_transport_and_compare_ports compare_port_ind
compile_port port dir accept reject = do
  emit (ld_abs_h 12)
  ipv4_label ← new_label
  check_v6 ← new_label
  emit_jump (jeq ethertype_ip) ipv4_label check_v6
  place_here check_v6
  ipv6_label ← new_label
  emit_jump (jeq ethertype_ipv6) ipv6_label reject
  place_here ipv6_label
  check_transport_and_compare_ports 54 56 port dir accept reject
  place_here ipv4_label
  emit (ld_abs_b 23)
  udp_check ← new_label
  port_check ← new_label
  emit_jump (jeq ipproto_tcp) port_check udp_check
  place_here udp_check
  emit_jump (jeq ipproto_udp) port_check reject
  place_here port_check
  emit (ldx_msh_b 14)
  compare_port_ind 14 16 port dir accept reject

unfoldable pub compile_port_range : ℕ → ℕ → Direction → LabelId → LabelId → Asm (Unit {0})
unfolding check_transport_and_compare_portrange compare_portrange_ind
compile_port_range start end dir accept reject = do
  emit (ld_abs_h 12)
  ipv4_label ← new_label
  check_v6 ← new_label
  emit_jump (jeq ethertype_ip) ipv4_label check_v6
  place_here check_v6
  ipv6_label ← new_label
  emit_jump (jeq ethertype_ipv6) ipv6_label reject
  place_here ipv6_label
  check_transport_and_compare_portrange 54 56 start end dir accept reject
  place_here ipv4_label
  emit (ld_abs_b 23)
  udp_check ← new_label
  port_check ← new_label
  emit_jump (jeq ipproto_tcp) port_check udp_check
  place_here udp_check
  emit_jump (jeq ipproto_udp) port_check reject
  place_here port_check
  emit (ldx_msh_b 14)
  compare_portrange_ind 14 16 start end dir accept reject
