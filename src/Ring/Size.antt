-- ===== src/Ring/Size.antt =====
-- The sizes of the ring that `open_with_options` of crates/netdump-afpacket/src/lib.rs asks for,
-- and `align_to`. A `usize` has 64 bits.
use netdump.Base.{
  ℕ, zero, suc, ◌+◌, ◌-◌, ◌*◌, ◌/◌, ◌%◌, ◌^◌, Bool, Option, none, some, ltb, leb, if◌then◌else◌,
  bit_and, List,
}
use netdump.Ring.Raw.{RawBpfInsn}

abbrev pub default_block_size : ℕ
default_block_size = 2 ^ 20

abbrev pub default_block_nr : ℕ
default_block_nr = 64

abbrev pub default_frame_size : ℕ
default_frame_size = 2048

abbrev pub default_retire_tov_ms : ℕ
default_retire_tov_ms = 100

pub record OpenOptions : Type 0 where
  pub snaplen : ℕ
  pub promiscuous : Bool
  pub block_size : ℕ
  pub block_nr : ℕ
  pub buffer_size : Option ℕ
  pub frame_size : Option ℕ
  pub retire_tov_ms : Option ℕ
  pub filter : Option (List RawBpfInsn)

-- `OpenOptions::default()`.
abbrev pub default_options : OpenOptions
default_options = record {
  snaplen = 65535;
  promiscuous = Bool.true;
  block_size = default_block_size;
  block_nr = default_block_nr;
  buffer_size = none;
  frame_size = none;
  retire_tov_ms = none;
  filter = none;
}

abbrev pub unwrap_or : Option ℕ → ℕ → ℕ
unwrap_or none d = d
unwrap_or (some n) d = n

abbrev pub max : ℕ → ℕ → ℕ
max a b = if ltb a b then b else a

-- `(value + align - 1) & !(align - 1)`. The assertion that `align` is a power of two is left to
-- the theorems: the system's page size is one.
unfoldable pub align_to : ℕ → ℕ → ℕ
align_to value align = bit_and (value + align - 1) (2 ^ 64 - align)

-- The least power of two that is not below `n`, from `p` on.
unfoldable pub power_from : ℕ → ℕ → ℕ → ℕ
power_from zero n p = p
power_from (suc fuel) n p = let rest = power_from fuel n (p * 2) in if leb n p then p else rest

abbrev pub next_power_of_two : ℕ → ℕ
next_power_of_two n = power_from 64 n 1

abbrev pub frame_size_of : OpenOptions → ℕ
frame_size_of options =
    next_power_of_two
      (max (unwrap_or options.frame_size default_frame_size) (options.snaplen + 256))

abbrev pub block_size_of : ℕ → OpenOptions → ℕ
block_size_of page options = align_to (max options.block_size (frame_size_of options)) page

-- `tpacket_req3`, whose fields are `c_uint`.
pub record TpacketReq : Type 0 where
  pub tp_block_size : ℕ
  pub tp_block_nr : ℕ
  pub tp_frame_size : ℕ
  pub tp_frame_nr : ℕ
  pub tp_retire_blk_tov : ℕ

abbrev pub ring_size_of : ℕ → OpenOptions → ℕ
ring_size_of page options = block_size_of page options * options.block_nr

abbrev pub request : ℕ → OpenOptions → TpacketReq
request page options = record {
  tp_block_size = block_size_of page options % 2 ^ 32;
  tp_block_nr = options.block_nr % 2 ^ 32;
  tp_frame_size = frame_size_of options % 2 ^ 32;
  tp_frame_nr = ring_size_of page options / frame_size_of options % 2 ^ 32;
  tp_retire_blk_tov = unwrap_or options.retire_tov_ms default_retire_tov_ms;
}
