-- ===== src/Capture/Live.antt =====
-- What the live loop writes: the packets that pass the filter and go the way that is asked for.
use netdump.Base.{
  ℕ, ◌≡◌, refl, subst, Bool, true, false, ◌||◌, Option, none, List, [], ◌∷◌, if◌then◌else◌,
}
use netdump.Bpf.{Instruction}
use netdump.Core.{Packet, NetdumpError, SlicedPacket}
use netdump.Args.{Args}
use netdump.Capture.Loop.{
  PcapPacket, Capture, Received, received, failure, Finish, done, waiting, failed, accepts,
  is_reached, is_wanted, keep, on_live, live_loop, packet_to_pcap, show_live,
}
use netdump.Capture.Way.{goes, is_wanted-goes}
use netdump.Capture.Select.{
  Adds, Adds-nil, keep-Adds, up_to, up_to_nil, up_to_reached, before_failure,
}

-- The packets to write, as the file has them.
abbrev pub passing : (Packet → Bool) → List Packet → List PcapPacket
passing test [] = []
passing test (p ∷ ps) = if test p then packet_to_pcap p ∷ passing test ps else passing test ps

-- A packet passes that the kernel has filtered or that the program accepts, in the direction asked for.
abbrev pub passes : Option (List Instruction) → Option (List ℕ) → Bool → List ℕ → Packet → Bool
passes program direction filtered mac p =
    if filtered || accepts program p.bytes then goes direction mac p.bytes else false

module _ (slice : List ℕ → Option SlicedPacket) (term_width : ℕ)
    (write_error : List PcapPacket → Option (List ℕ)) (args : Args)
    (program : Option (List Instruction)) (writes : args.write ≡ true)
    (fine : (ps : List PcapPacket) → write_error ps ≡ none) (filtered : Bool) (mac : List ℕ) where
  -- What the loop still has to add.
  abbrev rest_of : Capture → List (Received Packet NetdumpError) → List PcapPacket
  rest_of s rs =
      up_to args.count s.captured
        (passing (passes program args.direction filtered mac) (before_failure rs))

  on_live-Adds :
      (again : Capture → Finish) (r : Received Packet NetdumpError)
      (rest : List (Received Packet NetdumpError)) (s : Capture)
      → is_reached args.count s.captured ≡ false
      → ((t : Capture) → Adds t (rest_of t rest) (again t))
      → Adds s
          (rest_of s (r ∷ rest))
          (on_live slice term_width write_error args program filtered mac again r s)
  on_live-Adds again (failure e) rest s more ih =
      Adds-nil s (failed e s) refl (up_to_nil args.count s.captured)
  on_live-Adds again (received p) rest s more ih =
      subst
        (λ (w : Bool).
          Adds s
            (up_to args.count s.captured (
              if (if filtered || accepts program p.bytes then w else false)
              then packet_to_pcap p ∷ others
              else others))
            (on_live slice term_width write_error args program filtered mac again (received p) s))
        (is_wanted-goes args.direction mac p.bytes)
        (go (filtered || accepts program p.bytes) (is_wanted args.direction mac p.bytes))
    where
      others : List PcapPacket
      others = passing (passes program args.direction filtered mac) (before_failure rest)

      shown : Capture → Capture
      shown = show_live slice term_width write_error args program p

      go :
          (b w : Bool)
          → Adds s
              (up_to args.count s.captured
                (if (if b then w else false) then packet_to_pcap p ∷ others else others))
              (if b
                then (if w
                    then keep slice term_width write_error args again (packet_to_pcap p) shown s
                    else again s)
                else again s)
      go true true =
          keep-Adds slice term_width write_error args program writes fine again (packet_to_pcap p)
            shown others s (λ t. (refl, refl)) more ih
      go true false = ih s
      go false w = ih s

  -- Where there is a file to write to and each packet can be written: whatever packets `next_packet`
  -- returns before its first error, the live loop adds to that file exactly those that the filter
  -- accepts, where the kernel has not filtered them, and that go the way that `-Q` asks for, no more of
  -- them than `--count` leaves, in their order, and counts each.
  pub live_loop-Adds :
      (rs : List (Received Packet NetdumpError)) (s : Capture)
      → Adds s
          (up_to args.count s.captured
            (passing (passes program args.direction filtered mac) (before_failure rs)))
          (live_loop slice term_width write_error args program filtered mac rs s)
  unfolding live_loop
  live_loop-Adds [] s = go (is_reached args.count s.captured)
    where
      go : (b : Bool) → Adds s (up_to args.count s.captured []) (if b then done s else waiting s)
      go true = Adds-nil s (done s) refl (up_to_nil args.count s.captured)
      go false = Adds-nil s (waiting s) refl (up_to_nil args.count s.captured)
  live_loop-Adds (r ∷ rest) s =
      go (is_reached args.count s.captured) refl (λ t. live_loop-Adds rest t)
    where
      again : Capture → Finish
      again = live_loop slice term_width write_error args program filtered mac rest

      go :
          (b : Bool)
          → is_reached args.count s.captured ≡ b
          → ((t : Capture) → Adds t (rest_of t rest) (again t))
          → Adds s (rest_of s (r ∷ rest)) (
              if b
              then done s
              else on_live slice term_width write_error args program filtered mac again r s)
      go true e ih = Adds-nil s (done s) refl (up_to_reached args.count s.captured _ e)
      go false e ih = on_live-Adds again r rest s e ih
