-- ===== src/Capture/Again.antt =====
-- A run of crates/netdump-cli/src/main.rs over a socket, and a run over the file that it writes.
use Prim.Native.String.{String}
use netdump.Base.{ℕ, ◌≡◌, true, false, ◌==◌, Option, none, some, List}
use netdump.Core.{SlicedPacket}
use netdump.Args.{Args}
use netdump.Parser.Text.{Parsed}
use netdump.Parser.Net.{Pairs, AddrParser}
use netdump.Ring.Block.{Block}
use netdump.Ring.Reader.{Poll}
use netdump.Ring.System.{System}
use netdump.Ring.Interfaces.{IfAddrs}
use netdump.Ring.Open.{Kernel}
use netdump.Capture.Loop.{PcapPacket, Finish, final, idle, read_loop}
use netdump.Capture.Replay.{to_screen}
use netdump.Capture.Kept.{received_all}
use netdump.Capture.Program.{Run}
use netdump.Capture.Run.{reads, run}

module _ (slice : List ℕ → Option SlicedPacket) (term_width : ℕ)
    (write_error : List PcapPacket → Option (List ℕ)) (args : Args)
    (not_first : (args.timestamp_format == 5) ≡ false) (writes : args.write ≡ true)
    (prints : args.print ≡ true) (fine : (ps : List PcapPacket) → write_error ps ≡ none) where
  -- What a run shows that reads the file which a loop has left.
  abbrev shown : Finish → Finish
  shown f =
      read_loop slice term_width write_error (to_screen args) none (received_all (final f).written)
        idle

  module _ (k : Kernel) (addrs : IfAddrs) (rounds fuel : ℕ) (polls : List Poll) (std : AddrParser)
      (grammar : String → Parsed Pairs) where
    -- The run over the file that a loop has left.
    abbrev second_run : Finish → Run
    second_run f =
        run slice term_width write_error (to_screen args) k addrs rounds fuel polls none std grammar
          none (some (reads (received_all (final f).written)))
