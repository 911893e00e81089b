-- ===== src/Ring.antt =====
-- The TPACKET_V3 ring of crates/netdump-afpacket/src/lib.rs: blocks that the kernel fills and
-- `next_packet` reads in turn.
pub mod Raw
pub mod Block
pub mod Reader
pub mod System
pub mod Slots
pub mod Inv
pub mod Kernel
pub mod Moves
pub mod Fifo
pub mod Gets
pub mod Wait
pub mod Fuel
pub mod Live
pub mod Size
pub mod Layout
pub mod Open
pub mod Calls
pub mod Order
pub mod Opened
pub mod Interfaces
pub mod Default
pub mod Timed
pub mod Passed
pub mod Ahead
