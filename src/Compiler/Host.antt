-- ===== src/Compiler/Host.antt =====
-- crates/netdump-filter/src/compiler.rs: the host predicates, for IPv4, IPv6 and MAC addresses.
use netdump.Base.{
  ℕ, ◌+◌, ◌-◌, ◌*◌, List, [], ◌∷◌, ◌==◌, if◌then◌else◌, length, byte_at, u16_be, u32_be,
}
use netdump.Bpf.{ld_abs_h, ld_abs_w, jeq}
use netdump.Ast.{
  Direction, any, src, dst, HostAddr, Ipv4Addr, Ipv6Addr, octet_v6, ethertype_ip, ethertype_ipv6,
}
use netdump.Assembler.{LabelId, Asm, ◌>>=◌, ◌>>◌, done, new_label, emit, emit_jump, place_here}

unfoldable pub compile_ipv4_host : Ipv4Addr → Direction → LabelId → LabelId → Asm (Unit {0})
compile_ipv4_host addr dir accept reject = do
  emit (ld_abs_h 12)
  ip_label ← new_label
  emit_jump (jeq ethertype_ip) ip_label reject
  place_here ip_label
  elim dir [
    | any ↦ do
      emit (ld_abs_w 26)
      dst_check ← new_label
      emit_jump (jeq addr) accept dst_check
      place_here dst_check
      emit (ld_abs_w 30)
      emit_jump (jeq addr) accept reject
      done
    | src ↦ do emit (ld_abs_w 26); emit_jump (jeq addr) accept reject; done
    | dst ↦ do emit (ld_abs_w 30); emit_jump (jeq addr) accept reject; done
  ]

unfoldable pub ipv6_words : Ipv6Addr → List ℕ
ipv6_words addr =
    let octet = octet_v6 addr in
    u32_be (octet 0) (octet 1) (octet 2) (octet 3)
    ∷ u32_be (octet 4) (octet 5) (octet 6) (octet 7)
    ∷ u32_be (octet 8) (octet 9) (octet 10) (octet 11)
    ∷ u32_be (octet 12) (octet 13) (octet 14) (octet 15)
    ∷ []

-- The loop over the words that are left, from index `i`.
unfoldable pub check_ipv6_addr_from : ℕ → ℕ → ℕ → List ℕ → LabelId → LabelId → Asm (Unit {0})
check_ipv6_addr_from offset count i [] accept reject = done
check_ipv6_addr_from offset count i (word ∷ words) accept reject = do
  emit (ld_abs_w (offset + i * 4))
  if i == count - 1
      then (do emit_jump (jeq word) accept reject; done)
      else (do next ← new_label; emit_jump (jeq word) next reject; place_here next)
  check_ipv6_addr_from offset count (i + 1) words accept reject

unfoldable pub check_ipv6_addr_at : ℕ → List ℕ → LabelId → LabelId → Asm (Unit {0})
unfolding check_ipv6_addr_from
check_ipv6_addr_at offset words accept reject =
    check_ipv6_addr_from offset (length words) 0 words accept reject

unfoldable pub compile_ipv6_host : Ipv6Addr → Direction → LabelId → LabelId → Asm (Unit {0})
unfolding check_ipv6_addr_at ipv6_words
compile_ipv6_host addr dir accept reject = do
  let words = ipv6_words addr
  emit (ld_abs_h 12)
  ip6_label ← new_label
  emit_jump (jeq ethertype_ipv6) ip6_label reject
  place_here ip6_label
  elim dir [
    | any ↦ do
      dst_check ← new_label
      check_ipv6_addr_at 22 words accept dst_check
      place_here dst_check
      check_ipv6_addr_at 38 words accept reject
    | src ↦ check_ipv6_addr_at 22 words accept reject
    | dst ↦ check_ipv6_addr_at 38 words accept reject
  ]

unfoldable pub compile_host : HostAddr → Direction → LabelId → LabelId → Asm (Unit {0})
unfolding compile_ipv4_host compile_ipv6_host
compile_host (HostAddr.v4 a) dir accept reject = compile_ipv4_host a dir accept reject
compile_host (HostAddr.v6 a) dir accept reject = compile_ipv6_host a dir accept reject

-- The closure `check_at` of `compile_ether_host`.
unfoldable pub check_mac_at : ℕ → ℕ → ℕ → LabelId → LabelId → Asm (Unit {0})
check_mac_at high low offset accept reject = do
  high_ok ← new_label
  emit (ld_abs_w offset)
  emit_jump (jeq high) high_ok reject
  place_here high_ok
  emit (ld_abs_h (offset + 4))
  emit_jump (jeq low) accept reject
  done

-- The six bytes of the address as a 32-bit and a 16-bit number.
abbrev pub mac_high : List ℕ → ℕ
mac_high addr = u32_be (byte_at addr 0) (byte_at addr 1) (byte_at addr 2) (byte_at addr 3)

abbrev pub mac_low : List ℕ → ℕ
mac_low addr = u16_be (byte_at addr 4) (byte_at addr 5)

unfoldable pub compile_ether_host : List ℕ → Direction → LabelId → LabelId → Asm (Unit {0})
unfolding check_mac_at
compile_ether_host addr dir accept reject =
    let check_at = check_mac_at (mac_high addr) (mac_low addr) in
    elim dir [
      | any ↦ do
        src_check ← new_label
        check_at 0 accept src_check
        place_here src_check
        check_at 6 accept reject
      | src ↦ check_at 6 accept reject
      | dst ↦ check_at 0 accept reject
    ]
