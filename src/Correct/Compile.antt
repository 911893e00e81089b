-- ===== src/Correct/Compile.antt =====
-- `compile` of crates/netdump-filter/src/compiler.rs against `Vm::exec` of
-- crates/netdump-cbpf/src/vm.rs.
use netdump.Base.{ℕ, ◌^◌, ◌<◌, ◌≤◌, ◌≡◌, arith, refl, sym, ap, subst, ◌∙◌, some, List, length}
use netdump.Bpf.{Instruction}
use netdump.Ast.{FilterAst}
use netdump.Assembler.{ok, empty, Assembler}
use netdump.Compiler.{assemble, compile}
use netdump.Vm.{exec, start}
use netdump.Vm.Rules.{Image}
use netdump.Vm.Run.{exec_loop-Runs}
use netdump.Vm.Total.{exec-total}
use netdump.Listing.Node.{program_events, assemble-replay}
use netdump.Link.Code.{Code, Placed, index_of}
use netdump.Link.Resolve.{resolve-Code}
use netdump.Link.Labels.{replay-Placed}
use netdump.Link.Tidy.{program-Distinct}
use netdump.Link.Fit.{IsFilter, compile-Fit}
use netdump.Link.Panic.{emitted, compile-total}
use netdump.Meaning.{matches}
use netdump.Correct.Node.{program-Runs}

-- Where the fragments of a compiled filter stand in its program.
pub compile-Code :
    (ast : FilterAst) {prog : List Instruction}
    → compile ast ≡ ok prog
    → (index : ℕ → ℕ) × Code prog index 0 (program_events ast) × Placed index 0 (program_events ast)
unfolding compile
compile-Code ast h =
    let asm = (assemble ast empty).1 in
    let same = assemble-replay ast in
    (
      index_of asm.labels,
      resolve-Code (program_events ast) asm same h,
      subst (λ (a : Assembler). Placed (index_of a.labels) 0 (program_events ast)) (sym same)
          (replay-Placed (program_events ast) empty 0 refl (program-Distinct ast)),
    )

-- The compiled program of a filter decides it: run on any packet, it returns, and it returns what
-- the filter says of the packet. The filter's numbers are in the range of their types, and fewer
-- than 2^63 instructions are emitted.
pub exec-compile :
    (ast : FilterAst) (packet : List ℕ) {prog : List Instruction}
    → IsFilter ast
    → emitted ast < 2 ^ 63
    → compile ast ≡ ok prog
    → exec prog packet ≡ some (matches packet ast)
unfolding exec
exec-compile ast packet {prog} f size h =
    let (fit, same) = compile-Fit ast f h in
    let short : length prog < 2 ^ 63 = omega arith in
    let (b, hb) = exec-total prog packet (record { fit = fit; short = short }) in
    let (index, code, placed) = compile-Code ast h in
    let im : Image = record { prog = prog; packet = packet; index = index; short = short } in
    hb ∙ ap some (exec_loop-Runs prog packet _ start (program-Runs im ast (code, placed)) hb)

-- A filter of at most 257 instructions compiles, with no panic, to a program that decides it on
-- every packet. The filter's numbers are in the range of their types.
pub compile-decides :
    (ast : FilterAst)
    → IsFilter ast
    → emitted ast ≤ 257
    → (prog : List Instruction) × (compile ast ≡ ok prog)
      × ((packet : List ℕ) → exec prog packet ≡ some (matches packet ast))
compile-decides ast f size =
    let (prog, h) = compile-total ast size in
    let short : emitted ast < 2 ^ 63 = omega arith in
    (prog, h, λ packet. exec-compile ast packet f short h)
