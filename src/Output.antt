-- ===== src/Output.antt =====
-- crates/netdump-cli/src/main.rs: what is printed of a packet.
pub mod Date
pub mod Hex
pub mod Width
pub mod Names
pub mod Stamp
pub mod Addr
pub mod Line
pub mod Packets
pub mod Columns
pub mod Clock
pub mod ReadBack
pub mod Civil
