-- ===== src/Tests/Sockets.antt =====
-- A ring of two blocks, a kernel that grants every call, and a list of interfaces.
use netdump.Base.{
  ℕ, ◌+◌, ◌*◌, ◌%◌, ◌^◌, ◌≤◌, ◌≡◌, ◌≢◌, refl, arith, true, none, some, List, [], ◌∷◌, ◌++◌,
}
use netdump.Base.Text.{codes}
use netdump.Bpf.{ret_k}
use netdump.Ring.Raw.{raw_insn}
use netdump.Ring.Block.{Block, is_user}
use netdump.Ring.Reader.{AfPacketSocket, BlockCursor, wakes, retire, next_packet}
use netdump.Ring.System.{
  System, Reach, here, next, retires, takes, loads, IsOpened, kernel_retires, reader_loads,
  reader_takes,
}
use netdump.Ring.Inv.{pending}
use netdump.Ring.Fifo.{delivered-in_order, cursor-untouched}
use netdump.Ring.Live.{Delivers, next_packet-Delivers}
use netdump.Ring.Size.{
  OpenOptions, default_options, default_frame_size, unwrap_or, frame_size_of, block_size_of,
}
use netdump.Ring.Layout.{IsModest, sizes-fit, frames-fill, frames-left}
use netdump.Ring.Open.{Kernel, ok, socket_of, open_with_options}
use netdump.Ring.Opened.{fresh_system, open-IsOpened}
use netdump.Ring.Interfaces.{IfAddr}

abbrev empty_block : Block
empty_block = record {
  block_status = 0;
  num_pkts = 0;
  offset_to_first_pkt = 0;
  header_at =
      λ offset. record { tp_next_offset = 0; tp_sec = 0; tp_nsec = 0; tp_snaplen = 0; tp_mac = 0 };
  byte_of = λ i. 0;
}

-- Two packets of three bytes, at 48 and at 112.
abbrev pub two_packets : Block
two_packets = record {
  block_status = 1;
  num_pkts = 2;
  offset_to_first_pkt = 48;
  header_at = λ offset. record {
    tp_next_offset = 64;
    tp_sec = offset;
    tp_nsec = 5000;
    tp_snaplen = 3;
    tp_mac = 32;
  };
  byte_of = λ i. i % 256;
}

abbrev pub granting : Kernel
granting = record {
  fails = λ call. none;
  index_of = λ name. some 2;
  index_error = λ name. [];
  page_size = 2 ^ 12;
  fresh = λ i. empty_block;
  hwaddr = λ name. 1 ∷ 2 ∷ 3 ∷ 4 ∷ 5 ∷ 6 ∷ 0 ∷ 0 ∷ 0 ∷ 0 ∷ 0 ∷ 0 ∷ 0 ∷ 0 ∷ [];
  statistics = (0, 0);
}

abbrev two_blocks : OpenOptions
two_blocks = record default_options { block_nr = 2; filter = some (raw_insn (ret_k 0xffff) ∷ []) }

abbrev pub opened_socket : AfPacketSocket
opened_socket = socket_of granting two_blocks 2 true

opens :
    open_with_options granting (codes "eth0") two_blocks
    ≡ ((open_with_options granting (codes "eth0") two_blocks).0, ok opened_socket)
unfolding open_with_options
opens = refl

pub opened_socket-IsOpened : IsOpened (fresh_system opened_socket)
opened_socket-IsOpened =
    (open-IsOpened granting (codes "eth0") two_blocks opens (omega arith) (λ i. refl)).0

abbrev at_start : BlockCursor
at_start = record { base = 0; num_pkts = 2; seen = 0; next_offset = 48 }

abbrev one_delivered : System
one_delivered =
    reader_takes at_start (reader_loads (kernel_retires two_packets (fresh_system opened_socket)))

reaches : Reach (fresh_system opened_socket) one_delivered
reaches =
    next (next (next here (retires two_packets refl refl)) (loads refl refl))
      (takes at_start refl (omega arith))

delivered-in_order_example :
    one_delivered.delivered ++ pending one_delivered ≡ one_delivered.produced
delivered-in_order_example = delivered-in_order opened_socket-IsOpened reaches

cursor-untouched_example :
    (is_user (one_delivered.sock.ring.blocks 0) ≡ true)
    × ((retire two_packets one_delivered.sock).ring.blocks 0 ≡ one_delivered.sock.ring.blocks 0)
cursor-untouched_example =
    cursor-untouched {c = record at_start { seen = 1; next_offset = 112 }} opened_socket-IsOpened
      reaches refl two_packets

next_packet-Delivers_example :
    Delivers one_delivered (next_packet 9 (wakes (two_packets ∷ []) ∷ []) one_delivered.sock)
next_packet-Delivers_example =
    next_packet-Delivers 9 (wakes (two_packets ∷ []) ∷ []) opened_socket-IsOpened reaches
      ((refl, tt), tt) (omega arith)

-- The ring of the defaults, with pages of 4096 bytes.
IsModest-default_options : IsModest default_options
IsModest-default_options = record {
  snaplen_small = omega arith;
  frame_small = omega arith;
  block_small = omega arith;
}

sizes-fit_example :
    (j : ℕ) × (frame_size_of default_options ≡ 2 ^ j)
    × (unwrap_or default_options.frame_size default_frame_size ≤ frame_size_of default_options)
    × (default_options.snaplen + 256 ≤ frame_size_of default_options)
    × (block_size_of (2 ^ 12) default_options % 2 ^ 12 ≡ 0)
    × (default_options.block_size ≤ block_size_of (2 ^ 12) default_options)
    × (frame_size_of default_options ≤ block_size_of (2 ^ 12) default_options)
sizes-fit_example = sizes-fit default_options IsModest-default_options 12 (omega arith)

frames-fill_example : block_size_of (2 ^ 12) default_options % frame_size_of default_options ≡ 0
frames-fill_example =
    frames-fill default_options IsModest-default_options 12 (omega arith) 20 (omega arith)

-- `--block-size 1028`.
abbrev odd_blocks : OpenOptions
odd_blocks = record default_options { block_size = 1028 * 1024 }

IsModest-odd_blocks : IsModest odd_blocks
IsModest-odd_blocks = record {
  snaplen_small = omega arith;
  frame_small = omega arith;
  block_small = omega arith;
}

odd_frame : frame_size_of odd_blocks ≡ 131072
unfolding netdump.Ring.Size.power_from
odd_frame = refl

frames-left_example : block_size_of (2 ^ 12) odd_blocks % frame_size_of odd_blocks ≢ 0
frames-left_example =
    frames-left odd_blocks IsModest-odd_blocks 12 (omega arith) (omega arith)
      (omega (arith, odd_frame)) (rw odd_frame (omega arith))

abbrev interfaces : List IfAddr
interfaces =
    record { ifa_name = codes "lo"; ifa_flags = 9 }
    ∷ record { ifa_name = codes "eth1"; ifa_flags = 1 }
    ∷ record { ifa_name = codes "eth0"; ifa_flags = 1 }
    ∷ record { ifa_name = codes "eth1"; ifa_flags = 0 }
    ∷ []

abbrev first_letter : List ℕ → ℕ
first_letter [] = 0
first_letter (c ∷ s) = c
