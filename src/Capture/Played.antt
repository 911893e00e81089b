-- ===== src/Capture/Played.antt =====
-- What `run` of crates/netdump-cli/src/main.rs prints of a file that a run over a socket has written and
-- printed.
use netdump.Base.{
  ℕ, ◌≡◌, refl, sym, ap, ◌∙◌, subst, Bool, true, false, ◌||◌, ◌==◌, Option, none, List, [], ◌∷◌,
  if◌then◌else◌,
}
use netdump.Bpf.{Instruction}
use netdump.Core.{Packet, NetdumpError, SlicedPacket}
use netdump.Args.{Args}
use netdump.Capture.Loop.{
  PcapPacket, Capture, Received, received, failure, Finish, done, waiting, failed, final, idle,
  accepts, is_reached, is_wanted, packet_to_pcap, keep, on_live, read_loop, live_loop, show_live,
}
use netdump.Capture.Way.{is_wanted-goes}
use netdump.Capture.Select.{up_to, up_to_nil, up_to_reached, up_to_cons, before_failure}
use netdump.Capture.Live.{passing, passes, live_loop-Adds}
use netdump.Ring.Timed.{AllTimed}
use netdump.Capture.Replay.{to_screen}
use netdump.Capture.Kept.{received_all, SameShown, ShownAgain, kept, keep-shown, shown-SameShown}

module _ (slice : List ℕ → Option SlicedPacket) (term_width : ℕ)
    (write_error : List PcapPacket → Option (List ℕ)) (args : Args)
    (not_first : (args.timestamp_format == 5) ≡ false) (writes : args.write ≡ true)
    (prints : args.print ≡ true) (fine : (ps : List PcapPacket) → write_error ps ≡ none)
    (program : Option (List Instruction)) where
  module _ (filtered : Bool) (mac : List ℕ) where
    abbrev test : Packet → Bool
    test = passes program args.direction filtered mac

    abbrev live : List (Received Packet NetdumpError) → Capture → Finish
    live = live_loop slice term_width write_error args program filtered mac

    abbrev play : List PcapPacket → Capture → Finish
    play xs = read_loop slice term_width write_error (to_screen args) none (received_all xs)

    abbrev rest_of : Capture → List (Received Packet NetdumpError) → List PcapPacket
    rest_of s rs = up_to args.count s.captured (passing test (before_failure rs))

    play-nothing :
        (f : Finish) (xs : List PcapPacket) (s t : Capture)
        → final f ≡ s
        → xs ≡ []
        → SameShown s t
        → ShownAgain f (play xs t)
    unfolding read_loop
    play-nothing f xs s t e h same = (
      t,
      ap (λ (ys : List PcapPacket). play ys t) h,
      subst (λ (c : Capture). SameShown c t) (sym e) same,
    )

    on_live-ShownAgain :
        (again : Capture → Finish) (r : Received Packet NetdumpError)
        (rest : List (Received Packet NetdumpError)) (s t : Capture)
        → is_reached args.count s.captured ≡ false
        → AllTimed (before_failure (r ∷ rest))
        → SameShown s t
        → ((u v : Capture)
            → AllTimed (before_failure rest)
            → SameShown u v
            → ShownAgain (again u) (play (rest_of u rest) v))
        → ShownAgain
            (on_live slice term_width write_error args program filtered mac again r s)
            (play (rest_of s (r ∷ rest)) t)
    unfolding read_loop
    on_live-ShownAgain again (failure e) rest s t more h same ih =
        play-nothing (failed e s) _ s t refl (up_to_nil args.count s.captured) same
    on_live-ShownAgain again (received p) rest s t more (h, hs) same ih =
        subst
          (λ (w : Bool).
            ShownAgain
              (on_live slice term_width write_error args program filtered mac again (received p) s)
              (play
                (up_to args.count s.captured (
                  if (if filtered || accepts program p.bytes then w else false)
                  then packet_to_pcap p ∷ others
                  else others))
                t))
          (is_wanted-goes args.direction mac p.bytes)
          (go (filtered || accepts program p.bytes) (is_wanted args.direction mac p.bytes))
      where
        others : List PcapPacket
        others = passing test (before_failure rest)

        go :
            (b w : Bool)
            → ShownAgain
                (if b
                  then (if w
                      then keep slice term_width write_error args again
                          (packet_to_pcap p)
                          (show_live slice term_width write_error args program p)
                          s
                      else again s)
                  else again s)
                (play
                  (up_to args.count s.captured
                    (if (if b then w else false) then packet_to_pcap p ∷ others else others))
                  t)
        go true true =
            let xs = up_to_cons args.count s.captured (packet_to_pcap p) others more in
            let (c, e, f) =
              ih (show_live slice term_width write_error args program p (kept p s)) _ hs (
                shown-SameShown slice term_width write_error args not_first writes prints fine
                  program p s t h same) in
            (
              c,
              ap (λ (ys : List PcapPacket). play ys t) xs ∙ e,
              subst (λ (g : Finish). SameShown (final g) c)
                  (sym (
                    keep-shown slice term_width write_error args not_first writes prints fine
                      program again p s))
                  f,
            )
        go true false = ih s t hs same
        go false w = ih s t hs same

    live_loop-ShownAgain :
        (rs : List (Received Packet NetdumpError)) (s t : Capture)
        → AllTimed (before_failure rs)
        → SameShown s t
        → ShownAgain (live rs s) (play (rest_of s rs) t)
    unfolding live_loop
    live_loop-ShownAgain [] s t h same = go (is_reached args.count s.captured)
      where
        go :
            (b : Bool)
            → ShownAgain (if b then done s else waiting s) (play (up_to args.count s.captured []) t)
        go true = play-nothing (done s) _ s t refl (up_to_nil args.count s.captured) same
        go false = play-nothing (waiting s) _ s t refl (up_to_nil args.count s.captured) same
    live_loop-ShownAgain (r ∷ rest) s t h same =
        go (is_reached args.count s.captured) refl (live_loop-ShownAgain rest)
      where
        go :
            (b : Bool)
            → is_reached args.count s.captured ≡ b
            → ((u v : Capture)
                → AllTimed (before_failure rest)
                → SameShown u v
                → ShownAgain (live rest u) (play (rest_of u rest) v))
            → ShownAgain
                (if b
                  then done s
                  else on_live slice term_width write_error args program filtered mac
                      (live rest)
                      r
                      s)
                (play (rest_of s (r ∷ rest)) t)
        go true e ih =
            play-nothing (done s) _ s t refl (up_to_reached args.count s.captured _ e) same
        go false e ih = on_live-ShownAgain (live rest) r rest s t e h same ih

    -- Where packets are written, each without an error, and printed too, and no time since the first
    -- packet is asked for: for packets whose numbers a file can hold, the file that the live loop leaves,
    -- read with the same arguments, no filter and no count, shows just the same lines, counts as many
    -- packets and ends well.
    pub read_loop-ShownAgain :
        (rs : List (Received Packet NetdumpError))
        → AllTimed (before_failure rs)
        → ShownAgain (live rs idle) (play (final (live rs idle)).written idle)
    read_loop-ShownAgain rs h =
        let adds =
          live_loop-Adds slice term_width write_error args program writes fine filtered mac rs
            idle in
        subst (λ (xs : List PcapPacket). ShownAgain (live rs idle) (play xs idle)) (sym adds.0)
          (live_loop-ShownAgain rs idle idle h (refl, refl, refl, refl))
