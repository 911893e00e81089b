-- ===== src/Correct.antt =====
-- Compiled filters do what they mean: the fragment of each predicate, in a program that holds it,
-- leads to its first label where the predicate holds of the packet and to its second otherwise.
pub mod Proto
pub mod Host
pub mod Net
pub mod Port
pub mod Node
pub mod Compile
pub mod Gaps
