-- ===== src/Compiler/Net.antt =====
-- crates/netdump-filter/src/compiler.rs: the network predicates.
use netdump.Base.{ℕ, ◌+◌, ◌-◌, ◌*◌, bit_and, bit_or, List, [], ◌∷◌, ◌==◌, if◌then◌else◌, length}
use netdump.Bpf.{Instruction, new, bpf_alu, bpf_and, bpf_k, ld_abs_h, ld_abs_w, jeq}
use netdump.Ast.{
  Direction, any, src, dst, NetAddr, Ipv4Addr, Ipv6Addr, ethertype_ip, ethertype_ipv6,
}
use netdump.Assembler.{LabelId, Asm, ◌>>=◌, ◌>>◌, done, new_label, emit, emit_jump, place_here}
use netdump.Compiler.Host.{ipv6_words}

-- `Instruction::new(BPF_ALU | BPF_AND | BPF_K, 0, 0, k)`.
unfoldable pub alu_and : ℕ → Instruction
alu_and k = new (bit_or (bit_or bpf_alu bpf_and) bpf_k) 0 0 k

-- The closure `check_addr` of `compile_ipv4_net`.
unfoldable pub check_addr_at : ℕ → ℕ → ℕ → LabelId → LabelId → Asm (Unit {0})
check_addr_at net mask offset accept reject = do
  emit (ld_abs_w offset)
  emit (alu_and mask)
  emit_jump (jeq net) accept reject
  done

unfoldable pub compile_ipv4_net :
    Ipv4Addr → Ipv4Addr → Direction → LabelId → LabelId → Asm (Unit {0})
unfolding check_addr_at
compile_ipv4_net addr mask dir accept reject = do
  let check_addr = check_addr_at (bit_and addr mask) mask
  emit (ld_abs_h 12)
  ip_label ← new_label
  emit_jump (jeq ethertype_ip) ip_label reject
  place_here ip_label
  elim dir [
    | any ↦ do
      dst_check ← new_label
      check_addr 26 accept dst_check
      place_here dst_check
      check_addr 30 accept reject
    | src ↦ check_addr 26 accept reject
    | dst ↦ check_addr 30 accept reject
  ]

-- The loop over the pairs of words that are left, from index `i`.
unfoldable pub check_ipv6_net_from :
    ℕ → ℕ → ℕ → List ℕ → List ℕ → LabelId → LabelId → Asm (Unit {0})
check_ipv6_net_from offset count i [] masks accept reject = done
check_ipv6_net_from offset count i (word ∷ words) [] accept reject = done
check_ipv6_net_from offset count i (word ∷ words) (mask ∷ masks) accept reject = do
  emit (ld_abs_w (offset + i * 4))
  emit (alu_and mask)
  if i == count - 1
      then (do emit_jump (jeq word) accept reject; done)
      else (do next ← new_label; emit_jump (jeq word) next reject; place_here next)
  check_ipv6_net_from offset count (i + 1) words masks accept reject

unfoldable pub check_ipv6_net_at : ℕ → List ℕ → List ℕ → LabelId → LabelId → Asm (Unit {0})
unfolding check_ipv6_net_from
check_ipv6_net_at offset addr_words mask_words accept reject =
    check_ipv6_net_from offset (length addr_words) 0 addr_words mask_words accept reject

unfoldable pub compile_ipv6_net :
    Ipv6Addr → Ipv6Addr → Direction → LabelId → LabelId → Asm (Unit {0})
unfolding check_ipv6_net_at ipv6_words
compile_ipv6_net addr mask dir accept reject = do
  let addr_words = ipv6_words addr
  let mask_words = ipv6_words mask
  emit (ld_abs_h 12)
  ip6_label ← new_label
  emit_jump (jeq ethertype_ipv6) ip6_label reject
  place_here ip6_label
  elim dir [
    | any ↦ do
      dst_check ← new_label
      check_ipv6_net_at 22 addr_words mask_words accept dst_check
      place_here dst_check
      check_ipv6_net_at 38 addr_words mask_words accept reject
    | src ↦ check_ipv6_net_at 22 addr_words mask_words accept reject
    | dst ↦ check_ipv6_net_at 38 addr_words mask_words accept reject
  ]

unfoldable pub compile_net : NetAddr → Direction → LabelId → LabelId → Asm (Unit {0})
unfolding compile_ipv4_net compile_ipv6_net
compile_net (NetAddr.v4 addr mask) dir accept reject = compile_ipv4_net addr mask dir accept reject
compile_net (NetAddr.v6 addr mask) dir accept reject = compile_ipv6_net addr mask dir accept reject
