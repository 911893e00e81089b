-- ===== src/Capture/Socket.antt =====
-- The live loop of `run` in crates/netdump-cli/src/main.rs over the socket of
-- crates/netdump-afpacket/src/lib.rs: each round calls `next_packet` on what the round before left.
use netdump.Base.{ℕ, zero, suc, Option, List, if◌then◌else◌}
use netdump.Bpf.{Instruction}
use netdump.Core.{SlicedPacket}
use netdump.Args.{Args}
use netdump.Ring.Reader.{
  AfPacketSocket, Poll, Next, returned, error, blocked, out_of_fuel, next_packet,
}
use netdump.Capture.Loop.{
  PcapPacket, Capture, received, Finish, done, waiting, failed, out_of_rounds, is_reached, on_live,
}

module _ (slice : List ℕ → Option SlicedPacket) (term_width : ℕ)
    (write_error : List PcapPacket → Option (List ℕ)) (args : Args)
    (program : Option (List Instruction)) (mac : List ℕ) where
  -- What follows the call.
  abbrev pub on_next : (List Poll → AfPacketSocket → Capture → Finish) → Next → Capture → Finish
  on_next again (returned p sock polls) s =
      on_live slice term_width write_error args program sock.kernel_filter_attached mac
        (again polls sock) (received p) s
  on_next again (error e sock polls) s = failed e s
  on_next again (blocked sock) s = waiting s
  on_next again out_of_fuel s = out_of_rounds s

  -- So many rounds of the loop; each call of `next_packet` has the same fuel.
  unfoldable pub live_socket : ℕ → ℕ → List Poll → AfPacketSocket → Capture → Finish
  live_socket zero fuel polls sock s = out_of_rounds s
  live_socket (suc rounds) fuel polls sock s =
      if is_reached args.count s.captured
      then done s
      else on_next (live_socket rounds fuel) (next_packet fuel polls sock) s
