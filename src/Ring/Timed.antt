-- ===== src/Ring/Timed.antt =====
-- Times and lengths that stay within their fields, from the kernel's blocks to the packets that
-- `next_packet` of crates/netdump-afpacket/src/lib.rs returns.
use netdump.Base.{
  ℕ, zero, suc, ◌+◌, ◌^◌, ◌<◌, ◌≡◌, refl, ap, Bool, true, false, Option, none, some, List, [], ◌∷◌,
  ◌++◌, ◌==◌, ltb, if◌then◌else◌, length, arith,
}
use netdump.Base.Text.{codes}
use netdump.Core.{Packet, NetdumpError}
use netdump.Ring.Block.{Block, is_user, packet_at, slice_of}
use netdump.Ring.Reader.{
  AfPacketSocket, BlockCursor, Poll, fails, wakes, put_block, take_packet, written, retire,
  retire_all, release, Waited, ready, failed, waiting, wait_for_block, Next, returned, error,
  blocked, out_of_fuel, after_wait, with_cursor, next_packet,
}

-- A packet whose numbers a file can hold: less than a million microseconds, the length of its bytes,
-- and an original length of a `u32`.
abbrev pub IsTimed : Packet → Type 0
IsTimed p =
    (p.meta.ts_usec < 1_000_000) × (p.meta.cap_len ≡ length p.bytes) × (p.meta.orig_len < 2 ^ 32)

abbrev pub AllTimed : List Packet → Type 0
AllTimed [] = Unit
AllTimed (p ∷ ps) = IsTimed p × AllTimed ps

length-slice_of : (f : ℕ → ℕ) (start n : ℕ) → length (slice_of f start n) ≡ n
length-slice_of f start zero = refl
length-slice_of f start (suc n) = ap suc (length-slice_of f (start + 1) n)

-- The packets of a ring are such, where a frame's nanoseconds are those of a second.
pub packet_at-IsTimed :
    (ifindex : ℕ) (block : Block) (offset : ℕ)
    → (block.header_at offset).tp_nsec < 1_000_000_000
    → (block.header_at offset).tp_snaplen < 2 ^ 32
    → IsTimed (packet_at ifindex block offset)
packet_at-IsTimed ifindex block offset h g =
    let frame = block.header_at offset in
    (
      omega arith,
      refl,
      omega (arith, length-slice_of block.byte_of (offset + frame.tp_mac) frame.tp_snaplen),
    )

-- What the kernel writes in the headers of a block: nanoseconds of a second, and lengths of a `u32`.
abbrev pub IsTimedBlock : Block → Type 0
IsTimedBlock block =
    (offset : ℕ)
    → ((block.header_at offset).tp_nsec < 1_000_000_000)
      × ((block.header_at offset).tp_snaplen < 2 ^ 32)

abbrev pub AllTimedBlocks : List Block → Type 0
AllTimedBlocks [] = Unit
AllTimedBlocks (block ∷ blocks) = IsTimedBlock block × AllTimedBlocks blocks

abbrev pub TimedPolls : List Poll → Type 0
TimedPolls [] = Unit
TimedPolls (fails e ∷ polls) = TimedPolls polls
TimedPolls (wakes filled ∷ polls) = AllTimedBlocks filled × TimedPolls polls

abbrev pub TimedRing : AfPacketSocket → Type 0
TimedRing s = (i : ℕ) → IsTimedBlock (s.ring.blocks i)

put_block-TimedRing :
    (blocks : ℕ → Block) (i : ℕ) (block : Block)
    → ((j : ℕ) → IsTimedBlock (blocks j))
    → IsTimedBlock block
    → (j : ℕ) → IsTimedBlock (put_block blocks i block j)
put_block-TimedRing blocks i block h g j = go (i == j)
  where
    go : (b : Bool) → IsTimedBlock (if b then block else blocks j)
    go true = g
    go false = h j

retire-TimedRing :
    (block : Block) (s : AfPacketSocket)
    → IsTimedBlock block
    → TimedRing s
    → TimedRing (retire block s)
retire-TimedRing block s g h = go (is_user (s.ring.blocks s.ring.kernel_block))
  where
    go : (b : Bool) → TimedRing (if b then s else written block s)
    go true = h
    go false = put_block-TimedRing s.ring.blocks s.ring.kernel_block block h g

retire_all-TimedRing :
    (filled : List Block) (s : AfPacketSocket)
    → AllTimedBlocks filled
    → TimedRing s
    → TimedRing (retire_all filled s)
retire_all-TimedRing [] s g h = h
retire_all-TimedRing (block ∷ filled) s (g, gs) h =
    retire_all-TimedRing filled (retire block s) gs (retire-TimedRing block s g h)

release-TimedRing : (c : BlockCursor) (s : AfPacketSocket) → TimedRing s → TimedRing (release c s)
release-TimedRing c s h =
    put_block-TimedRing s.ring.blocks c.base (record (s.ring.blocks c.base) { block_status = 0 }) h
      (h c.base)

abbrev WaitedTimed : Waited → Type 0
WaitedTimed (ready s polls) = TimedRing s × TimedPolls polls
WaitedTimed (failed e s polls) = TimedRing s × TimedPolls polls
WaitedTimed (waiting s) = Unit

-- What a call returns, and what it leaves.
abbrev pub NextTimed : Next → Type 0
NextTimed (returned p s polls) = IsTimed p × TimedRing s × TimedPolls polls
NextTimed (error e s polls) = Unit
NextTimed (blocked s) = Unit
NextTimed out_of_fuel = Unit

wait_for_block-Timed :
    (polls : List Poll) (s : AfPacketSocket)
    → TimedPolls polls
    → TimedRing s
    → WaitedTimed (wait_for_block polls s)
unfolding wait_for_block
wait_for_block-Timed [] s g h = go (is_user (s.ring.blocks s.current_block))
  where
    go : (b : Bool) → WaitedTimed (if b then ready s [] else waiting s)
    go true = (h, g)
    go false = tt
wait_for_block-Timed (fails e ∷ polls) s g h = go (is_user (s.ring.blocks s.current_block))
  where
    go :
        (b : Bool)
        → WaitedTimed (
            if b
            then ready s (fails e ∷ polls)
            else failed (NetdumpError.io (codes "poll: " ++ e)) s polls)
    go true = (h, g)
    go false = (h, g)
wait_for_block-Timed (wakes filled ∷ polls) s (f, g) h =
    go (is_user (s.ring.blocks s.current_block)) (wait_for_block polls (retire_all filled s))
      (wait_for_block-Timed polls (retire_all filled s) g (retire_all-TimedRing filled s f h))
  where
    go :
        (b : Bool) (w : Waited)
        → WaitedTimed w
        → WaitedTimed (if b then ready s (wakes filled ∷ polls) else w)
    go true w v = (h, (f, g))
    go false w v = v

after_wait-Timed :
    (again : List Poll → AfPacketSocket → Next)
    → ((polls : List Poll) (s : AfPacketSocket)
        → TimedPolls polls
        → TimedRing s
        → NextTimed (again polls s))
    → (w : Waited) → WaitedTimed w
    → NextTimed (after_wait again w)
after_wait-Timed again ih (ready s polls) (h, g) = ih polls _ g h
after_wait-Timed again ih (failed e s polls) v = tt
after_wait-Timed again ih (waiting s) v = tt

with_cursor-Timed :
    (again : List Poll → AfPacketSocket → Next)
    → ((polls : List Poll) (s : AfPacketSocket)
        → TimedPolls polls
        → TimedRing s
        → NextTimed (again polls s))
    → (o : Option BlockCursor) (polls : List Poll) (s : AfPacketSocket) → TimedPolls polls
    → TimedRing s
    → NextTimed (with_cursor again o polls s)
with_cursor-Timed again ih none polls s g h =
    after_wait-Timed again ih (wait_for_block polls s) (wait_for_block-Timed polls s g h)
with_cursor-Timed again ih (some c) polls s g h = go (ltb c.seen c.num_pkts)
  where
    go :
        (b : Bool)
        → NextTimed (
            if b
            then (let (packet, s') = take_packet c s in returned packet s' polls)
            else after_wait again (wait_for_block polls (release c s)))
    go true =
        let (nsec, len) = h c.base c.next_offset in
        (packet_at-IsTimed s.ifindex (s.ring.blocks c.base) c.next_offset nsec len, h, g)
    go false =
        after_wait-Timed again ih (wait_for_block polls (release c s))
          (wait_for_block-Timed polls (release c s) g (release-TimedRing c s h))

-- Where the blocks of the ring and those that the polls bring are such, a packet that is returned is.
pub next_packet-Timed :
    (fuel : ℕ) (polls : List Poll) (s : AfPacketSocket)
    → TimedPolls polls
    → TimedRing s
    → NextTimed (next_packet fuel polls s)
unfolding next_packet
next_packet-Timed zero polls s g h = tt
next_packet-Timed (suc fuel) polls s g h =
    with_cursor-Timed (next_packet fuel) (next_packet-Timed fuel) s.cursor polls s g h
