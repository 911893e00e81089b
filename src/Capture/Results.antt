-- ===== src/Capture/Results.antt =====
-- The live loop of `run` in crates/netdump-cli/src/main.rs over a socket is the loop over what the calls
-- of `next_packet` return in turn.
use netdump.Base.{
  ℕ, zero, suc, ◌+◌, ◌*◌, ◌≤◌, ◌<◌, ◌≡◌, refl, sym, ap, ◌∙◌, subst, Bool, true, false, Option, List,
  [], ◌∷◌, if◌then◌else◌, length, arith,
}
use netdump.Bpf.{Instruction}
use netdump.Core.{Packet, NetdumpError, SlicedPacket}
use netdump.Args.{Args}
use netdump.Ring.Reader.{
  AfPacketSocket, Poll, Next, returned, error, blocked, out_of_fuel, next_packet,
}
use netdump.Ring.Timed.{AllTimed, TimedPolls, TimedRing, NextTimed, next_packet-Timed}
use netdump.Ring.System.{System, IsOpened}
use netdump.Ring.Gets.{IsKernel, supply}
use netdump.Ring.Live.{Serves, next_packet-Serves}
use netdump.Capture.Loop.{
  PcapPacket, Capture, Received, received, failure, Finish, done, waiting, failed, is_reached,
  on_live, live_loop,
}
use netdump.Capture.Select.{before_failure}
use netdump.Capture.Socket.{on_next, live_socket}
use netdump.Capture.Stands.{
  Reach-SameSocket, Stands, next-Stands, at_first, never_zero, fuel_enough,
}

-- What the calls return, up to the first error, where each call has the same fuel.
abbrev pub next_results :
    (List Poll → AfPacketSocket → List (Received Packet NetdumpError))
    → Next
    → List (Received Packet NetdumpError)
next_results again (returned p sock polls) = received p ∷ again polls sock
next_results again (error e sock polls) = failure e ∷ []
next_results again (blocked sock) = []
next_results again out_of_fuel = []

unfoldable pub results : ℕ → ℕ → List Poll → AfPacketSocket → List (Received Packet NetdumpError)
results zero fuel polls sock = []
results (suc rounds) fuel polls sock =
    next_results (results rounds fuel) (next_packet fuel polls sock)

next_results-Timed :
    (again : List Poll → AfPacketSocket → List (Received Packet NetdumpError)) (n : Next)
    → NextTimed n
    → ((polls : List Poll) (s : AfPacketSocket)
        → TimedPolls polls
        → TimedRing s
        → AllTimed (before_failure (again polls s)))
    → AllTimed (before_failure (next_results again n))
next_results-Timed again (returned p s polls) (t, h, g) ih = (t, ih polls s g h)
next_results-Timed again (error e s polls) v ih = tt
next_results-Timed again (blocked s) v ih = tt
next_results-Timed again out_of_fuel v ih = tt

pub results-Timed :
    (rounds fuel : ℕ) (polls : List Poll) (s : AfPacketSocket)
    → TimedPolls polls
    → TimedRing s
    → AllTimed (before_failure (results rounds fuel polls s))
unfolding results
results-Timed zero fuel polls s g h = tt
results-Timed (suc rounds) fuel polls s g h =
    next_results-Timed (results rounds fuel) (next_packet fuel polls s)
      (next_packet-Timed fuel polls s g h) (results-Timed rounds fuel)

module _ (slice : List ℕ → Option SlicedPacket) (term_width : ℕ)
    (write_error : List PcapPacket → Option (List ℕ)) (args : Args)
    (program : Option (List Instruction)) (mac : List ℕ) (filtered : Bool) where
  abbrev live : List (Received Packet NetdumpError) → Capture → Finish
  live = live_loop slice term_width write_error args program filtered mac

  live-done :
      (rs : List (Received Packet NetdumpError)) (c : Capture)
      → is_reached args.count c.captured ≡ true
      → live rs c ≡ done c
  unfolding live_loop
  live-done [] c e = ap (λ (b : Bool). if b then done c else waiting c) e
  live-done (r ∷ rest) c e =
      ap
        (λ (b : Bool).
          if b
          then done c
          else on_live slice term_width write_error args program filtered mac (live rest) r c)
        e

  module _ (s : System) (opened : IsOpened s) (attached : s.sock.kernel_filter_attached ≡ filtered)
      (most fuel : ℕ) (roomy : (most + 1) * (s.sock.block_nr + 1) + 1 < fuel) where
    abbrev loop : ℕ → List Poll → AfPacketSocket → Capture → Finish
    loop rounds = live_socket slice term_width write_error args program mac rounds fuel

    -- What one call comes to, in a loop that goes on.
    on_next-live :
        (rounds : ℕ) {t : System} (polls : List Poll) (c : Capture) (n : Next)
        → Stands s t most (suc rounds) polls
        → is_reached args.count c.captured ≡ false
        → Serves t (length t.produced + supply polls) (length polls) n
        → ((u : System) (polls' : List Poll) (c' : Capture)
            → Stands s u most rounds polls'
            → loop rounds polls' u.sock c' ≡ live (results rounds fuel polls' u.sock) c')
        → on_next slice term_width write_error args program mac (loop rounds) n c
          ≡ live (next_results (results rounds fuel) n) c
    unfolding live_loop
    on_next-live rounds {t} polls c (returned p k polls') v more (g, (kernel, few)) ih =
        let st = next-Stands v g kernel few in
        subst
          (λ (sock : AfPacketSocket).
            on_next slice term_width write_error args program mac (loop rounds)
              (returned p sock polls') c
            ≡ live (received p ∷ results rounds fuel polls' sock) c)
          g.at
          ((λ i.
              on_live slice term_width write_error args program
                (((Reach-SameSocket st.reach).1 ∙ attached) i) mac (λ c'. ih g.to polls' c' st i)
                (received p) c)
            ∙ sym (
                ap
                  (λ (b : Bool).
                    if b
                    then done c
                    else on_live slice term_width write_error args program filtered mac
                        (live (results rounds fuel polls' g.to.sock)) (received p) c)
                  more))
    on_next-live rounds {t} polls c (error e k polls') v more h ih =
        sym (ap (λ (b : Bool). if b then done c else failed e c) more)
    on_next-live rounds {t} polls c (blocked k) v more h ih =
        sym (ap (λ (b : Bool). if b then done c else waiting c) more)
    on_next-live rounds {t} polls c out_of_fuel v more h ih = elim h [ ]

    loop-live :
        (rounds : ℕ) (t : System) (polls : List Poll) (c : Capture)
        → Stands s t most rounds polls
        → loop rounds polls t.sock c ≡ live (results rounds fuel polls t.sock) c
    unfolding live_socket results
    loop-live zero t polls c v = elim (never_zero opened v) [ ]
    loop-live (suc rounds) t polls c v =
        go (is_reached args.count c.captured) refl (loop-live rounds)
      where
        call : Next
        call = next_packet fuel polls t.sock

        go :
            (b : Bool)
            → is_reached args.count c.captured ≡ b
            → ((u : System) (polls' : List Poll) (c' : Capture)
                → Stands s u most rounds polls'
                → loop rounds polls' u.sock c' ≡ live (results rounds fuel polls' u.sock) c')
            → (if b
                then done c
                else on_next slice term_width write_error args program mac (loop rounds) call c)
              ≡ live (next_results (results rounds fuel) call) c
        go true e ih = sym (live-done (next_results (results rounds fuel) call) c e)
        go false e ih =
            on_next-live rounds polls c call v e
              (next_packet-Serves fuel (length t.produced + supply polls) polls opened v.reach
                v.kernel (fuel_enough v roomy) (omega arith))
              ih

    -- From an opened socket on, whatever the kernel does between the polls: the live loop over the socket
    -- is the live loop over what `next_packet` returns in turn. More rounds than packets that the polls
    -- bring, and in each call more rounds than blocks for each poll, are enough.
    pub live_socket-live_loop :
        (rounds : ℕ) (polls : List Poll) (c : Capture)
        → IsKernel polls
        → length polls ≤ most
        → supply polls < rounds
        → live_socket slice term_width write_error args program mac rounds fuel polls s.sock c
          ≡ live_loop slice term_width write_error args program filtered mac
              (results rounds fuel polls s.sock)
              c
    live_socket-live_loop rounds polls c kernel few enough =
        loop-live rounds s polls c (at_first opened kernel few enough)
