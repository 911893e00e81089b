-- ===== src/Listing.antt =====
-- The assembler's calls as data: what a fragment of crates/netdump-filter/src/compiler.rs asks of
-- the assembler, in order. `Event` has the calls and `replay`; the other children list the calls
-- of each predicate, and `Node` those of a whole filter.
pub mod Event
pub mod Proto
pub mod Host
pub mod Net
pub mod Port
pub mod Node
