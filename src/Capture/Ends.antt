-- ===== src/Capture/Ends.antt =====
-- How the live loop of crates/netdump-cli/src/main.rs ends on what `next_packet` returns.
use netdump.Base.{
  ℕ, ◌≡◌, refl, sym, subst, Bool, true, false, ◌||◌, Option, none, some, List, [], ◌∷◌,
  if◌then◌else◌,
}
use netdump.Bpf.{Instruction}
use netdump.Core.{Packet, NetdumpError, SlicedPacket}
use netdump.Args.{Args}
use netdump.Capture.Loop.{
  PcapPacket, Capture, Received, received, failure, Finish, done, waiting, failed, out_of_rounds,
  accepts, is_reached, is_wanted, keep, on_live, live_loop, packet_to_pcap, show_live,
}
use netdump.Capture.Select.{keep_again}

-- The first error.
abbrev pub failure_in : List (Received Packet NetdumpError) → Option NetdumpError
failure_in [] = none
failure_in (received p ∷ rest) = failure_in rest
failure_in (failure e ∷ rest) = some e

-- The loop is done where the count is reached, has failed with the first error, or waits where there is
-- none.
abbrev pub EndsAs : Option ℕ → Option NetdumpError → Finish → Type 0
EndsAs count o (done s) = is_reached count s.captured ≡ true
EndsAs count o (failed e s) = (is_reached count s.captured ≡ false) × (o ≡ some e)
EndsAs count o (waiting s) = (is_reached count s.captured ≡ false) × (o ≡ none)
EndsAs count o (out_of_rounds s) = ⊥

module _ (slice : List ℕ → Option SlicedPacket) (term_width : ℕ)
    (write_error : List PcapPacket → Option (List ℕ)) (args : Args)
    (program : Option (List Instruction)) (writes : args.write ≡ true)
    (fine : (ps : List PcapPacket) → write_error ps ≡ none) (filtered : Bool) (mac : List ℕ) where
  on_live-EndsAs :
      (again : Capture → Finish) (r : Received Packet NetdumpError)
      (rest : List (Received Packet NetdumpError)) (s : Capture)
      → is_reached args.count s.captured ≡ false
      → ((t : Capture) → EndsAs args.count (failure_in rest) (again t))
      → EndsAs args.count
          (failure_in (r ∷ rest))
          (on_live slice term_width write_error args program filtered mac again r s)
  on_live-EndsAs again (failure e) rest s more ih = (more, refl)
  on_live-EndsAs again (received p) rest s more ih =
      go (filtered || accepts program p.bytes) (is_wanted args.direction mac p.bytes)
    where
      shown : Capture → Capture
      shown = show_live slice term_width write_error args program p

      kept : Finish
      kept = keep slice term_width write_error args again (packet_to_pcap p) shown s

      go :
          (b w : Bool)
          → EndsAs args.count
              (failure_in rest)
              (if b then (if w then kept else again s) else again s)
      go true true =
          let (t, same, wr, n) =
            keep_again slice term_width write_error args program writes fine again
              (packet_to_pcap p) shown s (λ t. (refl, refl)) in
          subst (EndsAs args.count (failure_in rest)) (sym same) (ih t)
      go true false = ih s
      go false w = ih s

  pub live_loop-EndsAs :
      (rs : List (Received Packet NetdumpError)) (s : Capture)
      → EndsAs args.count
          (failure_in rs)
          (live_loop slice term_width write_error args program filtered mac rs s)
  unfolding live_loop
  live_loop-EndsAs [] s = go (is_reached args.count s.captured) refl
    where
      go :
          (b : Bool)
          → is_reached args.count s.captured ≡ b
          → EndsAs args.count none (if b then done s else waiting s)
      go true e = e
      go false e = (e, refl)
  live_loop-EndsAs (r ∷ rest) s =
      go (is_reached args.count s.captured) refl (λ t. live_loop-EndsAs rest t)
    where
      again : Capture → Finish
      again = live_loop slice term_width write_error args program filtered mac rest

      go :
          (b : Bool)
          → is_reached args.count s.captured ≡ b
          → ((t : Capture) → EndsAs args.count (failure_in rest) (again t))
          → EndsAs args.count (failure_in (r ∷ rest)) (
              if b
              then done s
              else on_live slice term_width write_error args program filtered mac again r s)
      go true e ih = e
      go false e ih = on_live-EndsAs again r rest s e ih
