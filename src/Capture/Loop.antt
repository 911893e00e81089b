-- ===== src/Capture/Loop.antt =====
-- The two loops of `run` in crates/netdump-cli/src/main.rs. What the reader of the file and
-- `next_packet` return in turn is a list, and whether a packet can be written is a parameter.
use netdump.Base.{
  ℕ, ◌+◌, ◌*◌, ◌/◌, ◌%◌, ◌^◌, Bool, true, false, not, ◌&&◌, ◌||◌, Option, none, some, List, [], ◌∷◌,
  ◌++◌, leb, ◌==◌, if◌then◌else◌, length,
}
use netdump.Base.Text.{codes}
use netdump.Bpf.{Instruction}
use netdump.Vm.{exec}
use netdump.Core.{Packet, NetdumpError, SlicedPacket}
use netdump.Args.{Args}
use netdump.Ring.Open.{text_eq}
use netdump.Output.Stamp.{PktCtx}
use netdump.Output.Line.{range_of}
use netdump.Output.Packets.{print_packet}

-- A packet of a capture file; the time is a `Duration`.
pub record PcapPacket : Type 0 where
  pub secs : ℕ
  pub nanos : ℕ
  pub orig_len : ℕ
  pub bytes : List ℕ

-- What the loops change: `written` and `output` are what the file and the terminal have received.
pub record Capture : Type 0 where
  pub captured : ℕ
  pub ctx : PktCtx
  pub written : List PcapPacket
  pub output : List (List ℕ)

abbrev pub idle : Capture
idle = record {
  captured = 0;
  ctx = record { num = 0; prev_ts = (0, 0); first_ts = (0, 0) };
  written = [];
  output = [];
}

-- What the reader returns in turn: a packet or an error.
pub data Received (A E : Type 0) : Type 0 where
  received : A → Received A E
  failure : E → Received A E

-- A loop ends, fails, or waits where what it is given ends before it does; a loop over a socket may be
-- given too few rounds.
pub data Finish : Type 0 where
  done : Capture → Finish
  failed : NetdumpError → Capture → Finish
  waiting : Capture → Finish
  out_of_rounds : Capture → Finish

abbrev pub final : Finish → Capture
final (done s) = s
final (failed e s) = s
final (waiting s) = s
final (out_of_rounds s) = s

abbrev pub pcap_packet_to_packet : PcapPacket → ℕ → Packet
pcap_packet_to_packet pkt ifindex = record {
  meta = record {
    ts_sec = pkt.secs;
    ts_usec = pkt.nanos / 1000;
    ifindex = ifindex;
    cap_len = length pkt.bytes;
    orig_len = pkt.orig_len;
  };
  bytes = pkt.bytes;
}

-- `Duration::new`, which carries nanoseconds of a second and more into the seconds; these stay below 2^64.
abbrev pub duration : ℕ → ℕ → ℕ × ℕ
duration secs nanos = (secs + nanos / 1_000_000_000, nanos % 1_000_000_000)

-- The packet that the live loop writes.
abbrev pub packet_to_pcap : Packet → PcapPacket
packet_to_pcap packet =
    let (secs, nanos) = duration packet.meta.ts_sec (packet.meta.ts_usec * 1000 % 2 ^ 32) in
    record {
      secs = secs;
      nanos = nanos;
      orig_len = packet.meta.orig_len % 2 ^ 32;
      bytes = packet.bytes;
    }

abbrev pub is_accepted : Option Bool → Bool
is_accepted none = false
is_accepted (some b) = b

-- No program accepts every packet. The interpreter always returns.
abbrev pub accepts : Option (List Instruction) → List ℕ → Bool
accepts none bytes = true
accepts (some program) bytes = is_accepted (exec program bytes)

abbrev pub is_reached : Option ℕ → ℕ → Bool
is_reached none captured = false
is_reached (some most) captured = leb most captured

abbrev pub count_one : Capture → Capture
count_one s = record s { captured = s.captured + 1; ctx = record s.ctx { num = s.ctx.num + 1 } }

-- `-Q`: whether a packet goes the way that is asked for. `mac` is the interface's own address.
abbrev pub is_wanted : Option (List ℕ) → List ℕ → List ℕ → Bool
is_wanted none mac bytes = true
is_wanted (some direction) mac bytes =
    if leb 14 (length bytes)
    then (let outgoing = text_eq (range_of 6 6 bytes) mac in
        not (text_eq direction (codes "in") && outgoing)
        && not (text_eq direction (codes "out") && not outgoing))
    else true

-- A file's loop sets the time of the first packet at each one, the live loop at the first.
abbrev pub read_ctx : PcapPacket → PktCtx → PktCtx
read_ctx pkt ctx =
    let meta = (pcap_packet_to_packet pkt 0).meta in
    record ctx { first_ts = (meta.ts_sec, meta.ts_usec) }

abbrev pub live_ctx : Packet → PktCtx → PktCtx
live_ctx packet ctx =
    if ctx.num == 1
    then record ctx { first_ts = (packet.meta.ts_sec, packet.meta.ts_usec) }
    else ctx

module _ (slice : List ℕ → Option SlicedPacket) (term_width : ℕ)
    (write_error : List PcapPacket → Option (List ℕ)) (args : Args) where
  abbrev pub show : Packet → PktCtx → Capture → Capture
  show packet ctx s =
      let (text, after) = print_packet slice term_width args packet ctx in
      record s { ctx = after; output = s.output ++ (text ∷ []) }

  -- What follows `write_packet`, which reports what went wrong with the packets so far.
  abbrev pub after_write :
      (Capture → Finish) → Option (List ℕ) → PcapPacket → (Capture → Capture) → Capture → Finish
  after_write again (some e) pkt shown s = failed (NetdumpError.io e) s
  after_write again none pkt shown s =
      let kept = record s { written = s.written ++ (pkt ∷ []) } in
      again (if args.print then shown kept else kept)

  -- A packet is counted, written where there is a file, and printed where there is none or `--print`.
  abbrev pub keep : (Capture → Finish) → PcapPacket → (Capture → Capture) → Capture → Finish
  keep again pkt shown s =
      let counted = count_one s in
      if args.write
      then after_write again (write_error (counted.written ++ (pkt ∷ []))) pkt shown counted
      else again (shown counted)

  module _ (program : Option (List Instruction)) where
    abbrev pub show_read : PcapPacket → Capture → Capture
    show_read pkt s = show (pcap_packet_to_packet pkt 0) (read_ctx pkt s.ctx) s

    abbrev pub on_read : (Capture → Finish) → Received PcapPacket (List ℕ) → Capture → Finish
    on_read again (failure e) s = failed (NetdumpError.io e) s
    on_read again (received pkt) s =
        if accepts program pkt.bytes then keep again pkt (show_read pkt) s else again s

    unfoldable pub read_loop : List (Received PcapPacket (List ℕ)) → Capture → Finish
    read_loop [] s = done s
    read_loop (r ∷ rest) s =
        if is_reached args.count s.captured then done s else on_read (read_loop rest) r s

    abbrev pub show_live : Packet → Capture → Capture
    show_live packet s = show packet (live_ctx packet s.ctx) s

    module _ (kernel_filter_attached : Bool) (mac : List ℕ) where
      abbrev pub on_live : (Capture → Finish) → Received Packet NetdumpError → Capture → Finish
      on_live again (failure e) s = failed e s
      on_live again (received p) s =
          if kernel_filter_attached || accepts program p.bytes
          then (if is_wanted args.direction mac p.bytes
              then keep again (packet_to_pcap p) (show_live p) s
              else again s)
          else again s

      -- The live loop over a list of what `next_packet` returns in turn: a view for proofs of the loop
      -- in Socket, which calls it in each round.
      unfoldable pub live_loop : List (Received Packet NetdumpError) → Capture → Finish
      live_loop [] s = if is_reached args.count s.captured then done s else waiting s
      live_loop (r ∷ rest) s =
          if is_reached args.count s.captured then done s else on_live (live_loop rest) r s
