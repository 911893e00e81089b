-- ===== src/Compiler.antt =====
-- crates/netdump-filter/src/compiler.rs: from a filter's syntax tree to a CBPF program. The
-- predicates stand in the children.
pub mod Proto
pub mod Host
pub mod Net
pub mod Port
use netdump.Base.{ℕ, List}
use netdump.Bpf.{Instruction, ret_k, cbpf_accept, cbpf_reject}
use netdump.Ast.{FilterAst}
use netdump.Assembler.{
  LabelId, Asm, ◌>>=◌, ◌>>◌, done, new_label, emit, place_here, empty, Result, resolve,
}
use Proto.{compile_proto, compile_len}
use Host.{compile_host, compile_ether_host}
use Net.{compile_net}
use Port.{compile_port, compile_port_range}

unfoldable pub compile_node : FilterAst → LabelId → LabelId → Asm (Unit {0})
compile_node (FilterAst.and left right) accept reject = do
  mid ← new_label
  compile_node left mid reject
  place_here mid
  compile_node right accept reject
compile_node (FilterAst.or left right) accept reject = do
  mid ← new_label
  compile_node left accept mid
  place_here mid
  compile_node right accept reject
compile_node (FilterAst.not inner) accept reject = compile_node inner reject accept
compile_node (FilterAst.proto p) accept reject = compile_proto p accept reject
compile_node (FilterAst.host addr dir) accept reject = compile_host addr dir accept reject
compile_node (FilterAst.port port dir) accept reject = compile_port port dir accept reject
compile_node (FilterAst.port_range start end dir) accept reject =
    compile_port_range start end dir accept reject
compile_node (FilterAst.ether_host addr dir) accept reject =
    compile_ether_host addr dir accept reject
compile_node (FilterAst.net addr dir) accept reject = compile_net addr dir accept reject
compile_node (FilterAst.len op len) accept reject = compile_len op len accept reject

-- The assembler just before `resolve`.
unfoldable pub assemble : FilterAst → Asm (Unit {0})
unfolding compile_node
assemble ast = do
  accept ← new_label
  reject ← new_label
  compile_node ast accept reject
  place_here accept
  emit (ret_k cbpf_accept)
  place_here reject
  emit (ret_k cbpf_reject)
  done

unfoldable pub compile : FilterAst → Result (List Instruction)
unfolding assemble resolve
compile ast = resolve (assemble ast empty).1
