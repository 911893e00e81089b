-- ===== src/Parser.antt =====
-- crates/netdump-filter/src/lib.rs: from pairs of the grammar to the filter's syntax tree.
pub mod Text
pub mod Leaf
pub mod Net
pub mod Predicate
pub mod Build
pub mod Mask
pub mod Numbers
pub mod Ranges
pub mod Sound
pub mod Filters
