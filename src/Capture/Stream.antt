-- ===== src/Capture/Stream.antt =====
-- What `next_packet` of crates/netdump-afpacket/src/lib.rs is to return, one call after another, for what
-- the polls bring.
use netdump.Base.{ℕ, suc, ◌≤◌, ◌≡◌, refl, ap, List, [], ◌∷◌, ◌++◌, length, length-append, arith}
use netdump.Base.Text.{codes}
use netdump.Core.{Packet, NetdumpError}
use netdump.Ring.Block.{Block, packets_of}
use netdump.Ring.Reader.{Poll, fails, wakes}
use netdump.Ring.Gets.{supply, packets_in, length-packets_from}
use netdump.Ring.Ahead.{packets_of_all}
use netdump.Ring.Passed.{AllOf, AllOf-append, BlocksOf, PollsOf}
use netdump.Capture.Select.{before_failure}
use netdump.Capture.Loop.{Received, received, failure}

abbrev pub arrived : List Packet → List (Received Packet NetdumpError)
arrived [] = []
arrived (p ∷ ps) = received p ∷ arrived ps

arrived-append : (ps qs : List Packet) → arrived (ps ++ qs) ≡ arrived ps ++ arrived qs
arrived-append [] qs = refl
arrived-append (p ∷ ps) qs =
    ap (λ (rs : List (Received Packet NetdumpError)). received p ∷ rs) (arrived-append ps qs)

-- The packets in the blocks that the polls bring, in their order, up to the first poll that fails, and
-- its error.
abbrev pub stream : ℕ → List Poll → List (Received Packet NetdumpError)
stream ifindex [] = []
stream ifindex (fails e ∷ polls) = failure (NetdumpError.io (codes "poll: " ++ e)) ∷ []
stream ifindex (wakes filled ∷ polls) =
    arrived (packets_of_all ifindex filled) ++ stream ifindex polls

length-arrived : (ps : List Packet) → length (arrived ps) ≡ length ps
length-arrived [] = refl
length-arrived (p ∷ ps) = ap suc (length-arrived ps)

length-packets_of_all :
    (ifindex : ℕ) (blocks : List Block) → length (packets_of_all ifindex blocks) ≡ packets_in blocks
length-packets_of_all ifindex [] = refl
length-packets_of_all ifindex (block ∷ blocks) = omega (
  arith,
  length-append (packets_of ifindex block) (packets_of_all ifindex blocks),
  length-packets_from ifindex block.num_pkts block block.offset_to_first_pkt,
  length-packets_of_all ifindex blocks,
)

pub length-stream :
    (ifindex : ℕ) (polls : List Poll) → length (stream ifindex polls) ≤ suc (supply polls)
length-stream ifindex [] = omega arith
length-stream ifindex (fails e ∷ polls) = omega arith
length-stream ifindex (wakes filled ∷ polls) = omega (
  arith,
  length-append (arrived (packets_of_all ifindex filled)) (stream ifindex polls),
  length-arrived (packets_of_all ifindex filled),
  length-packets_of_all ifindex filled,
  length-stream ifindex polls,
)

-- No poll brings more blocks than the ring has.
abbrev pub FitsRing : ℕ → List Poll → Type 0
FitsRing nr [] = Unit
FitsRing nr (fails e ∷ polls) = FitsRing nr polls
FitsRing nr (wakes filled ∷ polls) = (length filled ≤ nr) × FitsRing nr polls

module _ (Q : Packet → Type 0) (ifindex : ℕ) where
  AllOf-packets_of_all :
      (filled : List Block) → BlocksOf Q ifindex filled → AllOf Q (packets_of_all ifindex filled)
  AllOf-packets_of_all [] h = tt
  AllOf-packets_of_all (block ∷ filled) (h, hs) =
      AllOf-append Q (packets_of ifindex block) (packets_of_all ifindex filled) h
        (AllOf-packets_of_all filled hs)

  AllOf-arrived :
      (ps : List Packet) (rs : List (Received Packet NetdumpError))
      → AllOf Q ps
      → AllOf Q (before_failure rs)
      → AllOf Q (before_failure (arrived ps ++ rs))
  AllOf-arrived [] rs h g = g
  AllOf-arrived (p ∷ ps) rs (q, h) g = (q, AllOf-arrived ps rs h g)

  pub AllOf-stream :
      (polls : List Poll)
      → PollsOf Q ifindex polls
      → AllOf Q (before_failure (stream ifindex polls))
  AllOf-stream [] h = tt
  AllOf-stream (fails e ∷ polls) h = tt
  AllOf-stream (wakes filled ∷ polls) (h, hs) =
      AllOf-arrived (packets_of_all ifindex filled) (stream ifindex polls)
        (AllOf-packets_of_all filled h) (AllOf-stream polls hs)
