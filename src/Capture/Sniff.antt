-- ===== src/Capture/Sniff.antt =====
-- The kernel, the ring, `next_packet` and the live loop together.
use netdump.Base.{
  ℕ, ◌+◌, ◌*◌, ◌≤◌, ◌<◌, ◌≡◌, sym, ap, ◌∙◌, subst, Bool, true, Option, none, List, length,
}
use netdump.Bpf.{Instruction}
use netdump.Core.{Packet, NetdumpError, SlicedPacket}
use netdump.Args.{Args}
use netdump.Ring.Reader.{Poll}
use netdump.Ring.System.{System, IsOpened}
use netdump.Ring.Gets.{IsKernel, supply}
use netdump.Capture.Loop.{PcapPacket, Capture, Received, Finish, live_loop}
use netdump.Capture.Select.{Adds, up_to, before_failure}
use netdump.Capture.Live.{passing, passes, live_loop-Adds}
use netdump.Capture.Ends.{failure_in, EndsAs, live_loop-EndsAs}
use netdump.Capture.Socket.{live_socket}
use netdump.Capture.Results.{live_socket-live_loop}
use netdump.Capture.Stream.{stream, FitsRing}
use netdump.Capture.Served.{results-stream}

module _ (slice : List ℕ → Option SlicedPacket) (term_width : ℕ)
    (write_error : List PcapPacket → Option (List ℕ)) (args : Args)
    (program : Option (List Instruction)) (mac : List ℕ) (writes : args.write ≡ true)
    (fine : (ps : List PcapPacket) → write_error ps ≡ none) (filtered : Bool) where
  module _ (s : System) (opened : IsOpened s) (attached : s.sock.kernel_filter_attached ≡ filtered)
      (most fuel : ℕ) (roomy : (most + 1) * (s.sock.block_nr + 1) + 1 < fuel) where
    -- Where there is a file to write to and each packet can be written, from an opened socket on, for polls
    -- that the kernel answers with blocks of its own, no more at once than the ring has: the live loop writes
    -- of the packets in these blocks, up to the first poll that fails, exactly those that pass the filter,
    -- where the kernel has not filtered them, and that go the way that `-Q` asks for, in their order and
    -- no more than `--count` leaves, and counts each. It is done where the count is reached, fails with the
    -- error of that poll, or waits where no poll fails. More rounds than packets that the polls bring, and
    -- in each call more rounds than blocks for each poll, are enough.
    pub live_socket-Writes :
        (rounds : ℕ) (polls : List Poll) (c : Capture)
        → IsKernel polls
        → FitsRing s.sock.block_nr polls
        → length polls ≤ most
        → supply polls < rounds
        → (let f : Finish =
              live_socket slice term_width write_error args program mac rounds fuel polls s.sock
                c in
            Adds c
              (up_to args.count c.captured (
                passing
                  (passes program args.direction filtered mac)
                  (before_failure (stream s.sock.ifindex polls))))
              f
            × EndsAs args.count (failure_in (stream s.sock.ifindex polls)) f)
    live_socket-Writes rounds polls c kernel rings few enough =
        let rs = stream s.sock.ifindex polls in
        subst
          (λ (f : Finish).
            Adds c
              (up_to args.count c.captured
                (passing (passes program args.direction filtered mac) (before_failure rs)))
              f
            × EndsAs args.count (failure_in rs) f)
          (sym (
            live_socket-live_loop slice term_width write_error args program mac filtered s opened
              attached most fuel roomy rounds polls c kernel few enough
            ∙ ap
                (λ (xs : List (Received Packet NetdumpError)).
                  live_loop slice term_width write_error args program filtered mac xs c)
                (results-stream s opened most fuel roomy rounds polls kernel rings few enough)))
          (
            live_loop-Adds slice term_width write_error args program writes fine filtered mac rs c,
            live_loop-EndsAs slice term_width write_error args program writes fine filtered mac rs
                c,
          )
