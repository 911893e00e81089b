-- ===== src/Capture/Served.antt =====
-- What `next_packet` of crates/netdump-afpacket/src/lib.rs returns, one call after another, is what it is to
-- return.
use native.Mathlib.Nat.{mul-le-mul_right}
use mathlib.Core.List.{append-nil}
use netdump.Base.{
  ℕ, zero, suc, ◌+◌, ◌*◌, ◌≤◌, ◌<◌, ◌≡◌, ◌≢◌, refl, sym, ap, ◌∙◌, subst, List, [], ◌∷◌, length,
  arith,
}
use netdump.Ring.Reader.{
  AfPacketSocket, Poll, Next, returned, error, blocked, out_of_fuel, next_packet,
}
use netdump.Ring.System.{System, here, IsOpened}
use netdump.Ring.Gets.{IsKernel, supply}
use netdump.Ring.Live.{Serves, next_packet-Serves}
use netdump.Ring.Ahead.{pending_by}
use netdump.Capture.Loop.{received}
use netdump.Capture.Results.{results, next_results}
use netdump.Capture.Stream.{stream, length-stream, FitsRing}
use netdump.Capture.Place.{Total, same_ahead, Place, NextPlace, next_packet-Place}

module _ (s : System) (opened : IsOpened s) (most : ℕ) where
  module _ (fuel : ℕ) (roomy : (most + 1) * (s.sock.block_nr + 1) + 1 < fuel) where
    -- No call runs out of rounds.
    Place-Serves :
        {total : Total} (polls : List Poll) (k : AfPacketSocket)
        → (g : Place s opened most total polls k) → next_packet fuel polls k ≢ out_of_fuel
    Place-Serves polls k g h =
        let (kernel, rings, few) = g.fits in
        let fewer =
          mul-le-mul_right {m = length polls + 1} {n = most + 1} (s.sock.block_nr + 1)
            (omega (arith, few)) in
        let same = ap (λ (n : ℕ). (length polls + 1) * (n + 1)) g.size in
        let bound = length g.to.produced + supply polls in
        elim (subst (Serves g.to bound (length polls)) (ap (next_packet fuel polls) g.at ∙ h) (
          next_packet-Serves fuel bound polls opened g.reach kernel
            (omega (arith, fewer, same, roomy)) (omega arith))) [ ]

    next_results-stream :
        {total : Total} (rounds : ℕ) (n : Next)
        → n ≢ out_of_fuel
        → NextPlace s opened most total n
        → length total ≤ suc rounds
        → ((later : Total) (polls : List Poll) (k : AfPacketSocket)
            → Place s opened most later polls k
            → length later ≤ rounds
            → results rounds fuel polls k ≡ later)
        → next_results (results rounds fuel) n ≡ total
    next_results-stream rounds (returned p k polls) d (later, e, g) l ih =
        ap (λ (rs : Total). received p ∷ rs) (ih later polls k g (omega (arith, l, ap length e)))
        ∙ sym e
    next_results-stream rounds (error e k polls) d h l ih = sym h
    next_results-stream rounds (blocked k) d h l ih = sym h
    next_results-stream rounds out_of_fuel d h l ih = absurd (d refl)

    results-Place :
        (rounds : ℕ) (total : Total) (polls : List Poll) (k : AfPacketSocket)
        → Place s opened most total polls k
        → length total ≤ rounds
        → results rounds fuel polls k ≡ total
    unfolding results
    results-Place zero [] polls k g l = refl
    results-Place zero (r ∷ rs) polls k g l = absurd (omega (arith, l))
    results-Place (suc rounds) total polls k g l =
        next_results-stream rounds (next_packet fuel polls k) (Place-Serves polls k g)
          (next_packet-Place s opened most fuel polls k g) l (results-Place rounds)

    -- From an opened ring on, for polls that the kernel answers with blocks of its own, no more at once than
    -- the ring has: the calls of `next_packet` return, one after another, just the packets in these blocks,
    -- in their order, up to the first poll that fails, and its error. More rounds than packets that the
    -- polls bring, and in each call more rounds than blocks for each poll, are enough.
    pub results-stream :
        (rounds : ℕ) (polls : List Poll)
        → IsKernel polls
        → FitsRing s.sock.block_nr polls
        → length polls ≤ most
        → supply polls < rounds
        → results rounds fuel polls s.sock ≡ stream s.sock.ifindex polls
    results-stream rounds polls kernel rings few enough =
        let empty =
          pending_by s opened here []
            (append-nil s.delivered ∙ opened.none_delivered ∙ sym opened.none_produced) in
        results-Place rounds (stream s.sock.ifindex polls) polls s.sock
          (record {
            to = s;
            reach = here;
            at = refl;
            index = refl;
            size = refl;
            rest = same_ahead s opened most polls empty;
            fits = (kernel, rings, few);
          })
          (omega (arith, enough, length-stream s.sock.ifindex polls))
