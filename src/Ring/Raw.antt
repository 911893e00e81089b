-- ===== src/Ring/Raw.antt =====
-- `RawBpfInsn` of crates/netdump-afpacket/src/lib.rs, in the layout of libc's `sock_filter`.
use netdump.Base.{ℕ, Option, none, some, List, [], ◌∷◌}
use netdump.Bpf.{Instruction}

pub record RawBpfInsn : Type 0 where
  pub code : ℕ
  pub jt : ℕ
  pub jf : ℕ
  pub k : ℕ

-- `RawBpfInsn::from`.
abbrev pub raw_insn : Instruction → RawBpfInsn
raw_insn i = record { code = i.code; jt = i.jt; jf = i.jf; k = i.k }

abbrev pub raw_program : List Instruction → List RawBpfInsn
raw_program [] = []
raw_program (i ∷ prog) = raw_insn i ∷ raw_program prog

abbrev pub raw_option : Option (List Instruction) → Option (List RawBpfInsn)
raw_option none = none
raw_option (some prog) = some (raw_program prog)
