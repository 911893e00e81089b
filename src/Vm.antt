-- ===== src/Vm.antt =====
-- crates/netdump-cbpf/src/vm.rs: the interpreter of CBPF programs. A packet is the list of its
-- bytes. One round of the loop is `step`; the loop takes fuel, and `Vm/Total.antt` shows that
-- one more than the program's length is enough.
pub mod Run
pub mod Total
pub mod Rules
use mathlib.Core.Option
use netdump.Base.{
  ℕ, zero, suc, ◌+◌, ◌-◌, ◌*◌, ◌/◌, ◌%◌, ◌^◌, bit_and, bit_or, bit_xor, Bool, true, false, not,
  Option, none, some, List, [], ◌∷◌, ltb, leb, ◌==◌, if◌then◌else◌, length, get_elem?, set, byte_at,
  u16_be, u32_be,
}
use netdump.Bpf.{
  Instruction, bpf_ld, bpf_ldx, bpf_st, bpf_stx, bpf_alu, bpf_jmp, bpf_misc, bpf_ret, bpf_w, bpf_h,
  bpf_b, bpf_imm, bpf_abs, bpf_ind, bpf_mem, bpf_len, bpf_msh, bpf_add, bpf_sub, bpf_mul, bpf_div,
  bpf_or, bpf_and, bpf_lsh, bpf_rsh, bpf_neg, bpf_mod, bpf_xor, bpf_ja, bpf_jeq, bpf_jgt, bpf_jge,
  bpf_jset, bpf_k, bpf_tax, bpf_txa,
}

unfoldable pub read_u8 : List ℕ → ℕ → ℕ
read_u8 packet offset = byte_at packet offset

unfoldable pub read_u16 : List ℕ → ℕ → ℕ
read_u16 packet offset =
    if ltb (length packet) (offset + 2)
    then 0
    else u16_be (byte_at packet offset) (byte_at packet (offset + 1))

unfoldable pub read_u32 : List ℕ → ℕ → ℕ
read_u32 packet offset =
    if ltb (length packet) (offset + 4)
    then 0
    else u32_be (byte_at packet offset) (byte_at packet (offset + 1)) (byte_at packet (offset + 2))
        (byte_at packet (offset + 3))

-- The local variables of the loop.
pub record State : Type 0 where
  pub pc : ℕ
  pub a : ℕ
  pub x : ℕ
  pub mem : List ℕ

-- One round goes on with new variables, or returns from the function.
pub data Round : Type 0 where
  go : State → Round
  ret : Bool → Round

abbrev pub wrapping_add : ℕ → ℕ → ℕ
wrapping_add pc k = (pc + k) % 2 ^ 64

-- `mem[(k % 16) as usize]`; the array has sixteen cells.
abbrev pub mem_at : State → ℕ → ℕ
mem_at s k = Option.get_or (get_elem? s.mem (k % 16)) 0

abbrev pub load_a : State → Option ℕ → Round
load_a s none = ret false
load_a s (some v) = go (record s { a = v })

abbrev pub load_x : State → Option ℕ → Round
load_x s none = ret false
load_x s (some v) = go (record s { x = v })

-- A read of one, two or four bytes; another width makes the program return false.
abbrev pub read_sized : List ℕ → ℕ → ℕ → Option ℕ
read_sized packet size offset =
    if size == bpf_b
    then some (read_u8 packet offset)
    else if size == bpf_h
    then some (read_u16 packet offset)
    else if size == bpf_w
    then some (read_u32 packet offset)
    else none

-- What the class LD loads into A.
abbrev pub ld_value : List ℕ → Instruction → State → Option ℕ
ld_value packet inst s =
    let size = bit_and inst.code 0x18 in
    let mode = bit_and inst.code 0xe0 in
    if mode == bpf_imm
    then some inst.k
    else if mode == bpf_abs
    then read_sized packet size inst.k
    else if mode == bpf_ind
    then read_sized packet size (s.x + inst.k)
    else if mode == bpf_mem
    then some (mem_at s inst.k)
    else if mode == bpf_len
    then some (length packet % 2 ^ 32)
    else none

-- What the class LDX loads into X.
abbrev pub ldx_value : List ℕ → Instruction → State → Option ℕ
ldx_value packet inst s =
    let mode = bit_and inst.code 0xe0 in
    if mode == bpf_imm
    then some inst.k
    else if mode == bpf_msh
    then some (bit_and (read_u8 packet inst.k) 0x0f * 4)
    else if mode == bpf_mem
    then some (mem_at s inst.k)
    else none

-- `wrapping_shl` and `wrapping_shr` take the shift modulo 32.
abbrev pub alu : ℕ → ℕ → ℕ → Option ℕ
alu op a k =
    if op == bpf_add
    then some ((a + k) % 2 ^ 32)
    else if op == bpf_sub
    then some ((a + 2 ^ 32 - k) % 2 ^ 32)
    else if op == bpf_mul
    then some (a * k % 2 ^ 32)
    else if op == bpf_div
    then (if k == 0 then none else some (a / k))
    else if op == bpf_or
    then some (bit_or a k)
    else if op == bpf_and
    then some (bit_and a k)
    else if op == bpf_lsh
    then some (a * 2 ^ (k % 32) % 2 ^ 32)
    else if op == bpf_rsh
    then some (a / 2 ^ (k % 32))
    else if op == bpf_mod
    then (if k == 0 then none else some (a % k))
    else if op == bpf_xor
    then some (bit_xor a k)
    else if op == bpf_neg
    then some ((2 ^ 32 - a) % 2 ^ 32)
    else none

abbrev pub jump_test : ℕ → ℕ → ℕ → Option Bool
jump_test op a k =
    if op == bpf_jeq
    then some (a == k)
    else if op == bpf_jgt
    then some (ltb k a)
    else if op == bpf_jge
    then some (leb k a)
    else if op == bpf_jset
    then some (not (bit_and a k == 0))
    else none

abbrev pub branch : Instruction → State → Option Bool → Round
branch inst s none = ret false
branch inst s (some true) = go (record s { pc = wrapping_add s.pc inst.jt })
branch inst s (some false) = go (record s { pc = wrapping_add s.pc inst.jf })

abbrev pub step_jmp : Instruction → State → Round
step_jmp inst s =
    let op = bit_and inst.code 0xf0 in
    if op == bpf_ja
    then go (record s { pc = wrapping_add s.pc inst.k })
    else branch inst s (jump_test op s.a inst.k)

abbrev pub step_misc : Instruction → State → Round
step_misc inst s =
    let op = bit_and inst.code 0xf0 in
    if op == bpf_tax
    then go (record s { x = s.a })
    else if op == bpf_txa
    then go (record s { a = s.x })
    else ret false

-- The body of the loop after `pc += 1`.
unfoldable pub step : List ℕ → Instruction → State → Round
step packet inst s =
    let class = bit_and inst.code 0x07 in
    if class == bpf_ld
    then load_a s (ld_value packet inst s)
    else if class == bpf_ldx
    then load_x s (ldx_value packet inst s)
    else if class == bpf_st
    then go (record s { mem = set s.mem (inst.k % 16) s.a })
    else if class == bpf_stx
    then go (record s { mem = set s.mem (inst.k % 16) s.x })
    else if class == bpf_alu
    then load_a s (alu (bit_and inst.code 0xf0) s.a inst.k)
    else if class == bpf_jmp
    then step_jmp inst s
    else if class == bpf_misc
    then step_misc inst s
    else if class == bpf_ret
    then ret (not ((if bit_and inst.code 0x08 == bpf_k then inst.k else s.x) == 0))
    else ret false

abbrev pub next_pc : State → State
next_pc s = record s { pc = s.pc + 1 }

-- The loop: `none` means that the fuel ran out.
unfoldable pub exec_loop : ℕ → List Instruction → List ℕ → State → Option Bool
exec_loop zero program packet s = none
exec_loop (suc fuel) program packet s = elim (get_elem? program s.pc) [
  | none ↦ some false
  | some inst ↦ elim (step packet inst (next_pc s)) [
    | ret b ↦ some b
    | go s' ↦ exec_loop fuel program packet s'
  ]
]

abbrev pub start : State
start = record {
  pc = 0;
  a = 0;
  x = 0;
  mem = 0 ∷ 0 ∷ 0 ∷ 0 ∷ 0 ∷ 0 ∷ 0 ∷ 0 ∷ 0 ∷ 0 ∷ 0 ∷ 0 ∷ 0 ∷ 0 ∷ 0 ∷ 0 ∷ [];
}

-- `Vm::exec`.
unfoldable pub exec : List Instruction → List ℕ → Option Bool
unfolding exec_loop step
exec program packet = exec_loop (length program + 1) program packet start
