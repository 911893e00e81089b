-- ===== src/Tests/Machine.antt =====
-- Runs of the interpreter, after the tests of crates/netdump-cbpf.
use netdump.Base.{ℕ, ◌≤◌, ◌≡◌, refl, arith, Bool, true, false, some, List, [], ◌∷◌}
use netdump.Bpf.{Instruction, ret_k, ld_abs_h, jeq, bpf_st}
use netdump.Vm.{State, Round, go, ret, exec, exec_loop, step, start, next_pc}
use netdump.Vm.Total.{IsProgram, exec-total, step-pc}

-- Accepts IPv4.
abbrev ipv4_only : List Instruction
ipv4_only = ld_abs_h 12 ∷ record (jeq 0x0800) { jt = 0; jf = 1 } ∷ ret_k 0xffff ∷ ret_k 0 ∷ []

abbrev frame : List ℕ
frame = 1 ∷ 2 ∷ 3 ∷ 4 ∷ 5 ∷ 6 ∷ 7 ∷ 8 ∷ 9 ∷ 10 ∷ 11 ∷ 12 ∷ 8 ∷ 0 ∷ 0x45 ∷ []

exec_ipv4 : exec ipv4_only frame ≡ some true
unfolding exec ld_abs_h jeq ret_k netdump.Vm.read_u16
exec_ipv4 = refl

exec_short : exec ipv4_only [] ≡ some false
unfolding exec ld_abs_h jeq ret_k netdump.Vm.read_u16
exec_short = refl

exec_empty : exec [] frame ≡ some false
unfolding exec
exec_empty = refl

ipv4_only-IsProgram : IsProgram ipv4_only
unfolding ld_abs_h jeq ret_k
ipv4_only-IsProgram = record { fit = omega arith; short = omega arith }

exec-total_example : (b : Bool) × (exec ipv4_only frame ≡ some b)
exec-total_example = exec-total ipv4_only frame ipv4_only-IsProgram

-- The accumulator into the array's cell 3.
abbrev store : Instruction
store = record { code = bpf_st; jt = 0; jf = 0; k = 3 }

abbrev loaded : State
loaded = record start { a = 7; pc = 1 }

abbrev stored : State
stored = record loaded { mem = 0 ∷ 0 ∷ 0 ∷ 7 ∷ 0 ∷ 0 ∷ 0 ∷ 0 ∷ 0 ∷ 0 ∷ 0 ∷ 0 ∷ 0 ∷ 0 ∷ 0 ∷ 0 ∷ [] }

step-store : step frame store loaded ≡ go stored
unfolding step
step-store = refl

step-pc_example : 1 ≤ 1
step-pc_example = step-pc frame store loaded stored (omega arith) (omega arith) step-store
