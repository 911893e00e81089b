-- ===== src/Capture/Files.antt =====
-- `run` of crates/netdump-cli/src/main.rs over a file is `run_file`.
use Prim.Native.String.{String}
use netdump.Base.{ℕ, ◌≡◌, refl, ap, ◌∙◌, Bool, false, Option, none, some, List, if◌then◌else◌}
use netdump.Core.{SlicedPacket}
use netdump.Args.{Args}
use netdump.Parser.Text.{Parsed}
use netdump.Parser.Net.{Pairs, AddrParser}
use netdump.Ring.Reader.{Poll}
use netdump.Ring.Interfaces.{IfAddrs, list_interfaces}
use netdump.Ring.Open.{Kernel}
use netdump.Capture.Loop.{PcapPacket, Received, idle, read_loop}
use netdump.Capture.Program.{
  FileText, Prepared, ready, refused, panics, Program, dumps, filters, filter_program, read_all,
  finished, run_file,
}
use netdump.Capture.Run.{index_or_zero, reads, all_listed, run_prepared, run}
use netdump.Capture.Start.{after_create-none}

module _ (slice : List ℕ → Option SlicedPacket) (term_width : ℕ)
    (write_error : List PcapPacket → Option (List ℕ)) (args : Args) (k : Kernel) (addrs : IfAddrs)
    (rounds fuel : ℕ) (polls : List Poll) (rs : List (Received PcapPacket (List ℕ))) where
  run_prepared-read_all :
      (q : Prepared Program)
      → run_prepared slice term_width write_error args k addrs rounds fuel polls none
          (some (reads rs))
          q
        ≡ read_all slice term_width write_error args rs q
  run_prepared-read_all (refused e) = refl
  run_prepared-read_all panics = refl
  run_prepared-read_all (ready (dumps prog)) = refl
  run_prepared-read_all (ready (filters program)) =
      after_create-none args.write
        (finished (read_loop slice term_width write_error args program rs idle))

  pub run-run_file :
      (std : AddrParser) (grammar : String → Parsed Pairs) (filter_file : Option FileText)
      → args.list_interfaces ≡ false
      → run slice term_width write_error args k addrs rounds fuel polls none std grammar filter_file
          (some (reads rs))
        ≡ run_file slice term_width write_error args std grammar filter_file rs
  unfolding run run_file
  run-run_file std grammar filter_file no_list =
      ap
        (λ (b : Bool).
          if b
          then all_listed (list_interfaces (λ n. index_or_zero (k.index_of n)) addrs)
          else run_prepared slice term_width write_error args k addrs rounds fuel polls none
              (some (reads rs)) (filter_program std grammar filter_file args))
        no_list
      ∙ run_prepared-read_all (filter_program std grammar filter_file args)
