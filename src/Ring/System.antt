-- ===== src/Ring/System.antt =====
-- The kernel and the reader of a ring, interleaved in any order: the kernel retires a block where
-- the status says that the next block is its own, the reader makes one of the three moves of
-- `next_packet`. `retired`, `released`, `produced` and `delivered` are there for the proofs only.
use netdump.Base.{ℕ, ◌+◌, ◌≤◌, ◌<◌, ◌≡◌, true, false, none, some, List, [], ◌∷◌, ◌++◌}
use netdump.Core.{Packet}
use netdump.Ring.Block.{Block, is_user, packets_of}
use netdump.Ring.Reader.{AfPacketSocket, BlockCursor, retire, take_packet, release, load}

pub record System : Type 0 where
  pub sock : AfPacketSocket
  pub retired : ℕ
  pub released : ℕ
  pub produced : List Packet
  pub delivered : List Packet

abbrev pub kernel_retires : Block → System → System
kernel_retires block s = record s {
  sock = retire block s.sock;
  retired = s.retired + 1;
  produced = s.produced ++ packets_of s.sock.ifindex block;
}

abbrev pub reader_takes : BlockCursor → System → System
reader_takes c s = record s {
  sock = (take_packet c s.sock).1;
  delivered = s.delivered ++ ((take_packet c s.sock).0 ∷ []);
}

abbrev pub reader_releases : BlockCursor → System → System
reader_releases c s = record s { sock = release c s.sock; released = s.released + 1 }

abbrev pub reader_loads : System → System
reader_loads s = record s { sock = load s.sock }

pub data Step (s : System) : System → Type 0 where
  retires :
      (block : Block)
      → is_user block ≡ true
      → is_user (s.sock.ring.blocks s.sock.ring.kernel_block) ≡ false
      → Step s (kernel_retires block s)
  takes :
      (c : BlockCursor) → s.sock.cursor ≡ some c → c.seen < c.num_pkts → Step s (reader_takes c s)
  releases :
      (c : BlockCursor)
      → s.sock.cursor ≡ some c
      → c.num_pkts ≤ c.seen
      → Step s (reader_releases c s)
  loads :
      s.sock.cursor ≡ none
      → is_user (s.sock.ring.blocks s.sock.current_block) ≡ true
      → Step s (reader_loads s)

-- From a system, in any number of steps.
pub data Reach (s : System) : System → Type 0 where
  here : Reach s s
  next : {t u : System} → Reach s t → Step t u → Reach s u

pub Reach-trans : {s t u : System} → Reach s t → Reach t u → Reach s u
Reach-trans r here = r
Reach-trans r (next q st) = next (Reach-trans r q) st

-- What `open_with_options` leaves, with the ring as `mmap` maps it: every block is the kernel's.
pub record IsOpened (s : System) : Type 0 where
  pub some_blocks : 0 < s.sock.block_nr
  pub no_cursor : s.sock.cursor ≡ none
  pub first_block : s.sock.current_block ≡ 0
  pub first_filled : s.sock.ring.kernel_block ≡ 0
  pub all_kernel : (i : ℕ) → is_user (s.sock.ring.blocks i) ≡ false
  pub none_retired : s.retired ≡ 0
  pub none_released : s.released ≡ 0
  pub none_produced : s.produced ≡ []
  pub none_delivered : s.delivered ≡ []
