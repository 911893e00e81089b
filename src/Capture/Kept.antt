-- ===== src/Capture/Kept.antt =====
-- A packet that the live loop of crates/netdump-cli/src/main.rs writes and prints, and the same packet in
-- the loop over the file.
use netdump.Base.{
  ◌+◌, ℕ, ◌+◌, ◌*◌, ◌/◌, ◌%◌, ◌^◌, ◌≡◌, arith, refl, ap, ◌∙◌, Bool, true, false, ◌==◌, Option, none,
  List, [], ◌∷◌, ◌++◌, if◌then◌else◌,
}
use netdump.Bpf.{Instruction}
use netdump.Core.{Packet, SlicedPacket}
use netdump.Args.{Args}
use netdump.Output.Stamp.{PktCtx}
use netdump.Output.Packets.{print_packet}
use netdump.Capture.Loop.{
  PcapPacket, Capture, Received, received, Finish, done, final, packet_to_pcap, count_one, live_ctx,
  read_ctx, after_write, keep, show_read, show_live,
}
use netdump.Ring.Timed.{IsTimed}
use netdump.Capture.Replay.{to_screen, print_packet-replayed}

-- A reader that returns these packets.
abbrev pub received_all : List PcapPacket → List (Received PcapPacket (List ℕ))
received_all [] = []
received_all (p ∷ ps) = received p ∷ received_all ps

-- The same count and output, and the same context but for the time of the first packet.
abbrev pub SameShown : Capture → Capture → Type 0
SameShown s t =
    (s.captured ≡ t.captured)
    × (s.output ≡ t.output)
    × (s.ctx.num ≡ t.ctx.num)
    × (s.ctx.prev_ts ≡ t.ctx.prev_ts)

-- The second run ends well, and has shown what the first has.
abbrev pub ShownAgain : Finish → Finish → Type 0
ShownAgain f g = (c : Capture) × (g ≡ done c) × SameShown (final f) c

live_ctx-same :
    (p : Packet) (ctx : PktCtx)
    → ((live_ctx p ctx).num ≡ ctx.num) × ((live_ctx p ctx).prev_ts ≡ ctx.prev_ts)
live_ctx-same p ctx = go (ctx.num == 1)
  where
    go :
        (b : Bool)
        → (let after : PktCtx =
              if b then record ctx { first_ts = (p.meta.ts_sec, p.meta.ts_usec) } else ctx in
            (after.num ≡ ctx.num) × (after.prev_ts ≡ ctx.prev_ts))
    go true = (refl, refl)
    go false = (refl, refl)

-- A packet is counted and written.
abbrev pub kept : Packet → Capture → Capture
kept p s = record (count_one s) { written = s.written ++ (packet_to_pcap p ∷ []) }

module _ (slice : List ℕ → Option SlicedPacket) (term_width : ℕ)
    (write_error : List PcapPacket → Option (List ℕ)) (args : Args)
    (not_first : (args.timestamp_format == 5) ≡ false) (writes : args.write ≡ true)
    (prints : args.print ≡ true) (fine : (ps : List PcapPacket) → write_error ps ≡ none)
    (program : Option (List Instruction)) where
  -- The loop goes on.
  pub keep-shown :
      (again : Capture → Finish) (p : Packet) (s : Capture)
      → keep slice term_width write_error args again
          (packet_to_pcap p)
          (show_live slice term_width write_error args program p)
          s
        ≡ again (show_live slice term_width write_error args program p (kept p s))
  keep-shown again p s =
      ap
        (λ (b : Bool).
          if b
          then after_write slice term_width write_error args again
              (write_error (s.written ++ (packet_to_pcap p ∷ []))) (packet_to_pcap p) shown
              (count_one s)
          else again (shown (count_one s)))
        writes
      ∙ ap
          (λ (o : Option (List ℕ)).
            after_write slice term_width write_error args again o (packet_to_pcap p) shown
              (count_one s))
          (fine _)
      ∙ ap (λ (b : Bool). again (if b then shown (kept p s) else kept p s)) prints
    where
      shown : Capture → Capture
      shown = show_live slice term_width write_error args program p

  pub shown-SameShown :
      (p : Packet) (s t : Capture)
      → IsTimed p
      → SameShown s t
      → SameShown (show_live slice term_width write_error args program p (kept p s)) (
          show_read slice term_width write_error
            (to_screen args)
            none
            (packet_to_pcap p)
            (count_one t))
  unfolding print_packet
  shown-SameShown p s t h (c, o, n, v) =
      let after = live_ctx-same p (count_one s).ctx in
      let num = after.0 ∙ ap suc_of n in
      (
        ap suc_of c,
        (λ i.
            o i
            ++ (print_packet-replayed slice term_width args not_first p
                  (live_ctx p (count_one s).ctx) (read_ctx (packet_to_pcap p) (count_one t).ctx) h
                  num (after.1 ∙ v) i
                ∷ [])),
        num,
        λ i. (sec i, micro i),
      )
    where
      suc_of : ℕ → ℕ
      suc_of n = n + 1

      sec : p.meta.ts_sec ≡ p.meta.ts_sec + p.meta.ts_usec * 1000 % 2 ^ 32 / 1_000_000_000
      sec = omega (arith, h.0)

      micro : p.meta.ts_usec ≡ p.meta.ts_usec * 1000 % 2 ^ 32 % 1_000_000_000 / 1000
      micro = omega (arith, h.0)
