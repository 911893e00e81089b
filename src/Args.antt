-- ===== src/Args.antt =====
-- `Args` of crates/netdump-cli/src/main.rs, less those that name files, and
-- the options of the socket that `run` makes of them.
use Prim.Native.String.{String}
use netdump.Base.{ℕ, ◌*◌, Bool, not, Option, none, some, List, ◌==◌, if◌then◌else◌}
use netdump.Bpf.{Instruction}
use netdump.Ring.Interfaces.{IfAddrs, Result, ok, default_interface}
use netdump.Ring.Raw.{raw_option}
use netdump.Ring.Size.{OpenOptions}

-- `write` says whether there is a file to write to.
pub record Args : Type 0 where
  pub interface : Option (List ℕ)
  pub filter : List String
  pub count : Option ℕ
  pub write : Bool
  pub snaplen : ℕ
  pub no_promiscuous : Bool
  pub list_interfaces : Bool
  pub link_header : Bool
  pub ascii : Bool
  pub quiet : Bool
  pub verbose : ℕ
  pub no_resolve : ℕ
  pub dump_bpf : Bool
  pub userspace_filter : Bool
  pub hex : ℕ
  pub hex_ascii : ℕ
  pub timestamp_format : ℕ
  pub buffer_size : Option ℕ
  pub no_checksum_verify : Bool
  pub packet_number : Bool
  pub absolute_tcp_seq : Bool
  pub line_buffered : Bool
  pub print : Bool
  pub direction : Option (List ℕ)
  pub block_size_kib : ℕ
  pub block_nr : ℕ
  pub frame_size : ℕ
  pub retire_tov_ms : ℕ

-- The name of the interface; `index_of` and `addrs` are the system's.
abbrev pub ifname : Args → (index_of : List ℕ → ℕ) → IfAddrs → Result (List ℕ)
ifname args index_of addrs = elim args.interface [
  | some name ↦ ok name
  | none ↦ default_interface index_of addrs
]

abbrev pub kernel_filter : Args → Option (List Instruction) → Option (List Instruction)
kernel_filter args program = if args.userspace_filter then none else program

-- The product of a `u32` and 1024 fits a `usize`.
abbrev pub options_of : Args → Option (List Instruction) → OpenOptions
options_of args program = record {
  snaplen = if args.snaplen == 0 then 65535 else args.snaplen;
  promiscuous = not args.no_promiscuous;
  block_size = args.block_size_kib * 1024;
  block_nr = args.block_nr;
  buffer_size = args.buffer_size;
  frame_size = some args.frame_size;
  retire_tov_ms = some args.retire_tov_ms;
  filter = raw_option (kernel_filter args program);
}
