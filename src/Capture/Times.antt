-- ===== src/Capture/Times.antt =====
-- Times that the loops of crates/netdump-cli/src/main.rs print.
use netdump.Base.{
  ℕ, ◌+◌, ◌-◌, ◌/◌, ◌≤◌, ◌<◌, ◌%◌, ◌≡◌, sym, ap, ◌∙◌, Bool, false, List, ◌∷◌, ◌++◌, ltb, arith,
  Option, [], if◌then◌else◌,
}
use netdump.Bpf.{Instruction}
use netdump.Core.{SlicedPacket, parse_packet}
use netdump.Args.{Args}
use netdump.Output.Line.{quiet_line, full_line}
use netdump.Output.Packets.{print_packet, hex_part, ascii_part}
use netdump.Base.Text.{codes}
use netdump.Output.Stamp.{
  PktCtx, micros, delta_of, delta_text, show_delta, show_time, signed_padded, zero_padded,
}
use netdump.Capture.Loop.{PcapPacket, Capture, pcap_packet_to_packet, read_ctx, show_read}

-- The sign of less than a second is not printed.
delta_text_unsigned : (b : Bool) (d : ℕ) → d < 1_000_000 → delta_text b d ≡ delta_text false d
unfolding delta_text
delta_text_unsigned b d h =
    let nothing : d / 1_000_000 ≡ 0 = omega arith in
    let text : Bool → ℕ → List ℕ =
      λ c q. signed_padded c q ++ (46 ∷ zero_padded 6 (d % 1_000_000)) in
    ap (text b) nothing ∙ sym (ap (text false) nothing)

delta-same : (t : ℕ × ℕ) → show_delta t t ≡ codes "000.000000"
unfolding show_delta delta_text
delta-same t =
    let none_between : delta_of t t ≡ 0 = ground arith in
    let sign = ltb (micros t) (micros t) in
    ap (delta_text sign) none_between ∙ delta_text_unsigned sign 0 (omega arith)

-- The time since the first packet, for the context of a file's loop.
read_ctx-first :
    (pkt : PcapPacket) (ctx : PktCtx)
    → show_time 5 (pcap_packet_to_packet pkt 0).meta (read_ctx pkt ctx) ≡ codes "000.000000"
unfolding show_time
read_ctx-first pkt ctx = delta-same (pkt.secs, pkt.nanos / 1000)

module _ (slice : List ℕ → Option SlicedPacket) (term_width : ℕ)
    (write_error : List PcapPacket → Option (List ℕ)) (args : Args)
    (program : Option (List Instruction)) where
  -- With five `-t` flags, which ask for the time since the first packet, what the loop over a file prints
  -- of a packet does not depend on when it was captured: with any other time of the packet, after
  -- whatever was captured before, it prints the same text.
  pub show_read-untimed :
      args.timestamp_format ≡ 5
      → (pkt : PcapPacket) (secs nanos : ℕ) (s : Capture)
      → (show_read slice term_width write_error args program pkt s).output
        ≡ (show_read slice term_width write_error args program
            (record pkt { secs = secs; nanos = nanos })
            s).output
  unfolding print_packet
  show_read-untimed five pkt secs nanos s =
      let other : PcapPacket = record pkt { secs = secs; nanos = nanos } in
      let same =
        ap (λ (f : ℕ). show_time f (pcap_packet_to_packet pkt 0).meta (read_ctx pkt s.ctx)) five
        ∙ read_ctx-first pkt s.ctx
        ∙ sym (read_ctx-first other s.ctx)
        ∙ ap (λ (f : ℕ). show_time f (pcap_packet_to_packet other 0).meta (read_ctx other s.ctx))
            (sym five) in
      ap
        (λ (ts : List ℕ).
          let info = parse_packet slice pkt.bytes in
          s.output
          ++ ((if args.quiet
                then quiet_line args ts s.ctx (pcap_packet_to_packet pkt 0).meta info ++ (10 ∷ [])
                else full_line args ts s.ctx (pcap_packet_to_packet pkt 0) info
                  ++ (10 ∷ hex_part slice term_width args pkt.bytes
                      ++ ascii_part slice term_width args pkt.bytes))
              ∷ []))
        same

-- The sign of a difference of less than a second is lost: the text is the same both ways.
pub show_delta-sign_lost :
    (a b : ℕ × ℕ)
    → micros a ≤ micros b
    → micros b < micros a + 1_000_000
    → show_delta a b ≡ show_delta b a
unfolding show_delta
show_delta-sign_lost a b h l =
    let d = micros b - micros a in
    let first : delta_of a b ≡ d = ground arith in
    let second : delta_of b a ≡ d = ground arith in
    let forth = ltb (micros a) (micros b) in
    let back = ltb (micros b) (micros a) in
    ap (delta_text forth) first
    ∙ delta_text_unsigned forth d (omega arith)
    ∙ sym (delta_text_unsigned back d (omega arith))
    ∙ sym (ap (delta_text back) second)
