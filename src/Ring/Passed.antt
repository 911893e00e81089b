-- ===== src/Ring/Passed.antt =====
-- What holds of every packet in the blocks that the kernel hands over.
use netdump.Base.{ℕ, List, [], ◌∷◌, ◌++◌}
use netdump.Core.{Packet}
use netdump.Ring.Block.{Block, packets_of}
use netdump.Ring.Reader.{Poll, fails, wakes}

module _ (Q : Packet → Type 0) where
  abbrev pub AllOf : List Packet → Type 0
  AllOf [] = Unit
  AllOf (p ∷ ps) = Q p × AllOf ps

  pub AllOf-append : (ps qs : List Packet) → AllOf ps → AllOf qs → AllOf (ps ++ qs)
  AllOf-append [] qs h g = g
  AllOf-append (p ∷ ps) qs (q, h) g = (q, AllOf-append ps qs h g)

  module _ (ifindex : ℕ) where
    abbrev pub BlocksOf : List Block → Type 0
    BlocksOf [] = Unit
    BlocksOf (block ∷ blocks) = AllOf (packets_of ifindex block) × BlocksOf blocks

    abbrev pub PollsOf : List Poll → Type 0
    PollsOf [] = Unit
    PollsOf (fails e ∷ polls) = PollsOf polls
    PollsOf (wakes filled ∷ polls) = BlocksOf filled × PollsOf polls
