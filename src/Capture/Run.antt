-- ===== src/Capture/Run.antt =====
-- `run` of crates/netdump-cli/src/main.rs. What the system, the polls and the files give is a parameter.
use Prim.Native.String.{String}
use netdump.Base.{ℕ, Option, none, some, List, [], ◌∷◌, ◌++◌, if◌then◌else◌}
use netdump.Base.Text.{codes, decimal}
use netdump.Bpf.{Instruction}
use netdump.Core.{NetdumpError, SlicedPacket}
use netdump.Args.{Args, ifname, options_of}
use netdump.Parser.Text.{Parsed}
use netdump.Parser.Net.{Pairs, AddrParser}
use netdump.Ring.Reader.{AfPacketSocket, Poll}
use netdump.Ring.Interfaces.{InterfaceInfo, IfAddrs, Result, list_interfaces}
use netdump.Ring.Open.{Kernel, Outcome, open_with_options}
use netdump.Ring.Calls.{get_iface_mac}
use netdump.Capture.Loop.{PcapPacket, Received, idle, read_loop}
use netdump.Capture.Socket.{live_socket}
use netdump.Capture.Program.{
  FileText, Prepared, ready, refused, panics, Program, dumps, filters, filter_program, Run,
  finished, dumped, lists, fails, panicked,
}

-- `if_nametoindex`, which gives 0 for a name that has no index.
abbrev pub index_or_zero : Option ℕ → ℕ
index_or_zero none = 0
index_or_zero (some i) = i

abbrev pub after_result {ℓ} : {A : Type ℓ} → Result A → (A → Run) → Run
after_result (Result.ok a) f = f a
after_result (Result.error e) f = fails e

abbrev pub after_outcome {ℓ} : {A : Type ℓ} → Outcome A → (A → Run) → Run
after_outcome (Outcome.ok a) f = f a
after_outcome (Outcome.error e) f = fails e

-- The interface's own address, which only `-Q` asks for.
abbrev pub iface_mac : Kernel → Option (List ℕ) → List ℕ → Outcome (List ℕ)
iface_mac k none name = Outcome.ok []
iface_mac k (some direction) name = (get_iface_mac k name).1

module _ (slice : List ℕ → Option SlicedPacket) (term_width : ℕ)
    (write_error : List PcapPacket → Option (List ℕ)) (args : Args) (k : Kernel) (rounds fuel : ℕ)
    (polls : List Poll) where
  abbrev pub sniff : Option (List Instruction) → AfPacketSocket → List ℕ → Run
  sniff program sock mac =
      finished
        (live_socket slice term_width write_error args program mac rounds fuel polls sock idle)

  abbrev pub open_and_sniff : Option (List Instruction) → List ℕ → Run
  open_and_sniff program name =
      after_outcome (open_with_options k name (options_of args program)).1
        λ sock. after_outcome (iface_mac k args.direction name) (sniff program sock)

-- A line of `-D`.
abbrev pub interface_line : InterfaceInfo → List ℕ
interface_line info =
    decimal info.ifindex
    ++ (codes ". " ++ (info.name ++ ((if info.is_up then codes "*" else []) ++ codes "\n")))

abbrev pub interface_lines : List InterfaceInfo → List ℕ
interface_lines [] = []
interface_lines (info ∷ infos) = interface_line info ++ interface_lines infos

-- What opening the file of `-r` gives: what the reader returns in turn, or what went wrong.
pub data PcapFile : Type 0 where
  reads : List (Received PcapPacket (List ℕ)) → PcapFile
  unreadable_file : List ℕ → PcapFile

abbrev pub all_listed : Result (List InterfaceInfo) → Run
all_listed (Result.ok infos) = lists (interface_lines infos)
all_listed (Result.error e) = fails e

-- What creating the file of `-w` and writing its header says.
abbrev pub after_create : Option (List ℕ) → Run → Run
after_create none r = r
after_create (some e) r = fails (NetdumpError.io e)

module _ (slice : List ℕ → Option SlicedPacket) (term_width : ℕ)
    (write_error : List PcapPacket → Option (List ℕ)) (args : Args) (k : Kernel) (addrs : IfAddrs)
    (rounds fuel : ℕ) (polls : List Poll) (create_error : Option (List ℕ)) where
  -- The packets of a file, or those of a socket.
  abbrev pub capture : Option PcapFile → Option (List Instruction) → Run
  capture (some (unreadable_file e)) program = fails (NetdumpError.io e)
  capture (some (reads rs)) program =
      finished (read_loop slice term_width write_error args program rs idle)
  capture none program =
      after_result (ifname args (λ name. index_or_zero (k.index_of name)) addrs)
        (open_and_sniff slice term_width write_error args k rounds fuel polls program)

  abbrev pub run_prepared : Option PcapFile → Prepared Program → Run
  run_prepared read (refused e) = fails e
  run_prepared read panics = panicked
  run_prepared read (ready (dumps prog)) = dumped prog
  run_prepared read (ready (filters program)) =
      after_create (if args.write then create_error else none) (capture read program)

  unfoldable pub run :
      AddrParser → (String → Parsed Pairs) → Option FileText → Option PcapFile → Run
  run std grammar filter_file read =
      if args.list_interfaces
      then all_listed (list_interfaces (λ name. index_or_zero (k.index_of name)) addrs)
      else run_prepared read (filter_program std grammar filter_file args)
