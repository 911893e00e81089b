-- ===== src/Ring/Block.antt =====
-- The memory that the kernel and crates/netdump-afpacket/src/lib.rs share: the blocks of a
-- TPACKET_V3 ring, as linux/if_packet.h lays them out. `+=` on a `u32` wraps.
use netdump.Base.{ℕ, zero, suc, ◌+◌, ◌/◌, ◌%◌, ◌^◌, Bool, not, List, [], ◌∷◌, ◌==◌, bit_and, length}
use netdump.Core.{Packet}

-- TP_STATUS_KERNEL and TP_STATUS_USER.
abbrev pub tp_status_kernel : ℕ
tp_status_kernel = 0

abbrev pub tp_status_user : ℕ
tp_status_user = 1

-- The fields of `tpacket3_hdr` that are read.
pub record FrameHeader : Type 0 where
  pub tp_next_offset : ℕ
  pub tp_sec : ℕ
  pub tp_nsec : ℕ
  pub tp_snaplen : ℕ
  pub tp_mac : ℕ

-- The fields of a block's descriptor, and what stands at an offset of the block.
pub record Block : Type 0 where
  pub block_status : ℕ
  pub num_pkts : ℕ
  pub offset_to_first_pkt : ℕ
  pub header_at : ℕ → FrameHeader
  pub byte_of : ℕ → ℕ

-- `status & TP_STATUS_USER != 0`.
abbrev pub is_user : Block → Bool
is_user block = not (bit_and block.block_status tp_status_user == 0)

-- `slice::from_raw_parts`.
abbrev pub slice_of : (ℕ → ℕ) → ℕ → ℕ → List ℕ
slice_of byte_of start zero = []
slice_of byte_of start (suc n) = byte_of start ∷ slice_of byte_of (start + 1) n

abbrev pub build_packet : List ℕ → ℕ → ℕ → ℕ → Packet
build_packet bytes sec nsec ifindex = record {
  meta = record {
    ts_sec = sec;
    ts_usec = nsec / 1000;
    ifindex = ifindex;
    cap_len = length bytes;
    orig_len = length bytes;
  };
  bytes = bytes;
}

-- The packet whose header stands at an offset of a block.
abbrev pub packet_at : ℕ → Block → ℕ → Packet
packet_at ifindex block offset =
    let frame = block.header_at offset in
    build_packet (slice_of block.byte_of (offset + frame.tp_mac) frame.tp_snaplen) frame.tp_sec
      frame.tp_nsec ifindex

abbrev pub next_at : Block → ℕ → ℕ
next_at block offset = (offset + (block.header_at offset).tp_next_offset) % 2 ^ 32

-- So many packets of a block, from the one at an offset on.
unfoldable pub packets_from : ℕ → Block → ℕ → ℕ → List Packet
packets_from ifindex block zero offset = []
packets_from ifindex block (suc n) offset =
    packet_at ifindex block offset ∷ packets_from ifindex block n (next_at block offset)

abbrev pub packets_of : ℕ → Block → List Packet
packets_of ifindex block = packets_from ifindex block block.num_pkts block.offset_to_first_pkt
