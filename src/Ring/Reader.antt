-- ===== src/Ring/Reader.antt =====
-- `next_packet`, `wait_for_block` and `poll` of crates/netdump-afpacket/src/lib.rs. The kernel's
-- side is given by what each `poll` finds: an error, or the blocks that it retired meanwhile, in
-- ring order and only where the block's status gives it back to the kernel.
use netdump.Base.{
  ℕ, zero, suc, ◌+◌, ◌%◌, Bool, Option, none, some, List, [], ◌∷◌, ◌++◌, ◌==◌, ltb, if◌then◌else◌,
}
use netdump.Base.Text.{codes}
use netdump.Core.{Packet, NetdumpError}
use netdump.Ring.Block.{Block, tp_status_kernel, is_user, packet_at, next_at}

-- The blocks by their numbers, and the block that the kernel fills next.
pub record Memory : Type 0 where
  pub blocks : ℕ → Block
  pub kernel_block : ℕ

-- `base` is the number of the block that the pointer `base` points to.
pub record BlockCursor : Type 0 where
  pub base : ℕ
  pub num_pkts : ℕ
  pub seen : ℕ
  pub next_offset : ℕ

-- The descriptor and the sizes in bytes are left out: nothing here reads them.
pub record AfPacketSocket : Type 0 where
  pub ifindex : ℕ
  pub ring : Memory
  pub block_nr : ℕ
  pub current_block : ℕ
  pub cursor : Option BlockCursor
  pub kernel_filter_attached : Bool

abbrev pub put_block : (ℕ → Block) → ℕ → Block → ℕ → Block
put_block blocks i block j = if i == j then block else blocks j

abbrev pub written : Block → AfPacketSocket → AfPacketSocket
written block s = record s {
  ring = record {
    blocks = put_block s.ring.blocks s.ring.kernel_block block;
    kernel_block = (s.ring.kernel_block + 1) % s.block_nr;
  };
}

-- The kernel retires a block, or drops it where the next block is still the reader's.
abbrev pub retire : Block → AfPacketSocket → AfPacketSocket
retire block s = if is_user (s.ring.blocks s.ring.kernel_block) then s else written block s

abbrev pub retire_all : List Block → AfPacketSocket → AfPacketSocket
retire_all [] s = s
retire_all (block ∷ blocks) s = retire_all blocks (retire block s)

pub data Poll : Type 0 where
  fails : List ℕ → Poll
  wakes : List Block → Poll

-- The packet that the cursor is at, and the socket behind it.
abbrev pub take_packet : BlockCursor → AfPacketSocket → Packet × AfPacketSocket
take_packet c s =
    let block = s.ring.blocks c.base in
    (
      packet_at s.ifindex block c.next_offset,
      record s {
        cursor = some (record c { seen = c.seen + 1; next_offset = next_at block c.next_offset });
      },
    )

-- The block that is read to its end goes back to the kernel.
abbrev pub release : BlockCursor → AfPacketSocket → AfPacketSocket
release c s = record s {
  ring = record s.ring {
    blocks =
        put_block s.ring.blocks c.base
          (record (s.ring.blocks c.base) { block_status = tp_status_kernel });
  };
  cursor = none;
  current_block = (s.current_block + 1) % s.block_nr;
}

-- A cursor at the first packet of the current block.
abbrev pub load : AfPacketSocket → AfPacketSocket
load s =
    let block = s.ring.blocks s.current_block in
    record s {
      cursor = some (record {
        base = s.current_block;
        num_pkts = block.num_pkts;
        seen = 0;
        next_offset = block.offset_to_first_pkt;
      });
    }

-- The loop of `wait_for_block` ends with a block or an error, or still waits where the polls end.
pub data Waited : Type 0 where
  ready : AfPacketSocket → List Poll → Waited
  failed : NetdumpError → AfPacketSocket → List Poll → Waited
  waiting : AfPacketSocket → Waited

unfoldable pub wait_for_block : List Poll → AfPacketSocket → Waited
wait_for_block [] s = if is_user (s.ring.blocks s.current_block) then ready s [] else waiting s
wait_for_block (fails e ∷ polls) s =
    if is_user (s.ring.blocks s.current_block)
    then ready s (fails e ∷ polls)
    else failed (NetdumpError.io (codes "poll: " ++ e)) s polls
wait_for_block (wakes filled ∷ polls) s =
    let rest = wait_for_block polls (retire_all filled s) in
    if is_user (s.ring.blocks s.current_block) then ready s (wakes filled ∷ polls) else rest

-- How `next_packet` ends. It is `blocked` where the polls end before it does.
pub data Next : Type 0 where
  returned : Packet → AfPacketSocket → List Poll → Next
  error : NetdumpError → AfPacketSocket → List Poll → Next
  blocked : AfPacketSocket → Next
  out_of_fuel : Next

-- What follows the wait: the loop goes on with a cursor at the block.
abbrev pub after_wait : (List Poll → AfPacketSocket → Next) → Waited → Next
after_wait again (ready s polls) = again polls (load s)
after_wait again (failed e s polls) = error e s polls
after_wait again (waiting s) = blocked s

abbrev pub with_cursor :
    (List Poll → AfPacketSocket → Next) → Option BlockCursor → List Poll → AfPacketSocket → Next
with_cursor again none polls s = after_wait again (wait_for_block polls s)
with_cursor again (some c) polls s =
    if ltb c.seen c.num_pkts
    then (let (packet, s') = take_packet c s in returned packet s' polls)
    else after_wait again (wait_for_block polls (release c s))

unfoldable pub next_packet : ℕ → List Poll → AfPacketSocket → Next
next_packet zero polls s = out_of_fuel
next_packet (suc fuel) polls s = with_cursor (next_packet fuel) s.cursor polls s
