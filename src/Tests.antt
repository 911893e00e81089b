-- ===== src/Tests.antt =====
-- Runs of the modelled code on concrete inputs, and instances of the theorems.
mod Filters
mod Machine
mod Texts
mod Printing
mod Sockets
mod Loops
mod Runs
