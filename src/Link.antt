-- ===== src/Link.antt =====
-- What `Assembler::resolve` of crates/netdump-filter/src/assembler.rs makes of the assembler's
-- calls: where each instruction stands in the program, and what its jumps have become.
pub mod Code
pub mod Resolve
pub mod Labels
pub mod Tidy
pub mod Forward
pub mod Panic
pub mod Fit
