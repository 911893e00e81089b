-- ===== src/Capture.antt =====
-- `run` and `main` in crates/netdump-cli/src/main.rs: the loops over the packets of a file and over those
-- of a socket, and what stands around them.
pub mod Loop
pub mod Select
pub mod Live
pub mod Socket
pub mod Stands
pub mod Sniff
pub mod Times
pub mod Program
pub mod Run
pub mod Main
pub mod Whole
pub mod Start
pub mod Alive
pub mod Replay
pub mod Results
pub mod Stream
pub mod Kept
pub mod Played
pub mod Again
pub mod Files
pub mod Place
pub mod Served
pub mod Way
pub mod Ends
