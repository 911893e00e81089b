-- ===== src/Capture/Replay.antt =====
-- A capture that `run` of crates/netdump-cli/src/main.rs writes and prints, and the reading of its file.
use netdump.Base.{
  ℕ, ◌*◌, ◌/◌, ◌%◌, ◌^◌, ◌≡◌, refl, sym, ap, ◌∙◌, ◌+◌, false, ◌==◌, Option, none, List, [], ◌∷◌,
  ◌++◌, if◌then◌else◌, arith,
}
use netdump.Core.{Packet, PacketMeta, SlicedPacket, parse_packet}
use netdump.Args.{Args}
use netdump.Ring.Timed.{IsTimed}
use netdump.Output.Stamp.{PktCtx, show_time}
use netdump.Output.Line.{quiet_line, full_line}
use netdump.Output.Packets.{print_packet, hex_part, ascii_part}
use netdump.Capture.Loop.{pcap_packet_to_packet, packet_to_pcap}

-- A packet that is written and read is the same but for its interface.
replayed :
    (p : Packet)
    → IsTimed p
    → pcap_packet_to_packet (packet_to_pcap p) 0 ≡ record p { meta = record p.meta { ifindex = 0 } }
replayed p (h, l, g) = λ i. record {
  meta = record {
    ts_sec = sec i;
    ts_usec = usec i;
    ifindex = 0;
    cap_len = sym l i;
    orig_len = orig i;
  };
  bytes = p.bytes;
}
  where
    sec : p.meta.ts_sec + p.meta.ts_usec * 1000 % 2 ^ 32 / 1_000_000_000 ≡ p.meta.ts_sec
    sec = omega arith

    usec : p.meta.ts_usec * 1000 % 2 ^ 32 % 1_000_000_000 / 1000 ≡ p.meta.ts_usec
    usec = omega arith

    orig : p.meta.orig_len % 2 ^ 32 ≡ p.meta.orig_len
    orig = omega arith

-- The same time, but for formats that ask for the first packet's.
show_time-first :
    (format : ℕ) (meta : PacketMeta) (ctx : PktCtx) (first : ℕ × ℕ) (i : ℕ)
    → (format == 5) ≡ false
    → show_time format meta ctx
      ≡ show_time format (record meta { ifindex = i }) (record ctx { first_ts = first })
unfolding show_time
show_time-first format meta ctx first i h = rw h refl

-- The arguments of the run that shows the file: the same, without a file to write to, a count or a
-- filter.
abbrev pub to_screen : Args → Args
to_screen args = record args { write = false; count = none; filter = [] }

module _ (slice : List ℕ → Option SlicedPacket) (term_width : ℕ) (args : Args)
    (not_first : (args.timestamp_format == 5) ≡ false) where
  printed-first :
      (p : Packet) (ctx : PktCtx) (first : ℕ × ℕ)
      → (print_packet slice term_width args p ctx).0
        ≡ (print_packet slice term_width
            (to_screen args)
            (record p { meta = record p.meta { ifindex = 0 } })
            (record ctx { first_ts = first })).0
  unfolding print_packet
  printed-first p ctx first =
      ap
        (λ (ts : List ℕ).
          let info = parse_packet slice p.bytes in
          if args.quiet
          then quiet_line args ts ctx p.meta info ++ (10 ∷ [])
          else full_line args ts ctx p info
            ++ (10 ∷ hex_part slice term_width args p.bytes
                ++ ascii_part slice term_width args p.bytes))
        (show_time-first args.timestamp_format p.meta ctx first 0 not_first)

  pub print_packet-replayed :
      (p : Packet) (ctx ctx' : PktCtx)
      → IsTimed p
      → ctx.num ≡ ctx'.num
      → ctx.prev_ts ≡ ctx'.prev_ts
      → (print_packet slice term_width args p ctx).0
        ≡ (print_packet slice term_width
            (to_screen args)
            (pcap_packet_to_packet (packet_to_pcap p) 0)
            ctx').0
  print_packet-replayed p ctx ctx' h n t = printed-first p ctx ctx'.first_ts ∙ (λ i.
      (print_packet slice term_width (to_screen args) (sym (replayed p h) i)
        (record { num = n i; prev_ts = t i; first_ts = ctx'.first_ts })).0)
