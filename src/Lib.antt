-- ===== src/Lib.antt =====
-- netdump: a packet sniffer with tcpdump's filters. A filter is parsed to a tree, the tree is
-- compiled to a program of the classic BPF machine, and the program decides each packet: in the
-- kernel, behind an AF_PACKET socket, or in an interpreter for packets from a file.
--
-- What is modelled, by file and by the source it translates:
--   Bpf        crates/netdump-filter/src/types.rs: instructions, opcodes, constructor functions
--   Assembler  crates/netdump-filter/src/assembler.rs: the assembler is a state that each call
--              takes and returns (`Asm`); its map of labels is an association list, newest first;
--              `resolve` returns each of its panics as a value
--   Ast        crates/netdump-filter/src/lib.rs and crates/netdump-core/src/lib.rs: the tree of a
--              filter and the protocol numbers; addresses are numbers
--   Compiler   crates/netdump-filter/src/compiler.rs: `compile` and, in its children, one function
--              for each function of the file
--   Vm         crates/netdump-cbpf/src/vm.rs: `Vm::exec`, with the local variables of its loop as a
--              record, one round as `step` and the readers of the packet
--   Parser     crates/netdump-filter/src/lib.rs: `parse` and its builders, over the pairs that the
--              grammar's parser makes, which is a parameter, as the parsers of addresses are
--   Core       crates/netdump-core/src/lib.rs: packets, errors, `parse_packet` over what etherparse
--              slices, which is a parameter
--   Ring       crates/netdump-afpacket/src/lib.rs: the blocks of a TPACKET_V3 ring (Block), the
--              instructions as libc lays them out (Raw), the reader `next_packet` with the polls
--              that it makes as a list (Reader), kernel and reader as a step relation (System), the
--              sizes of the ring (Size), `open_with_options` with its system calls in order (Open),
--              statistics, `Drop` and the address of an interface (Calls), the interfaces (Interfaces)
--   Args       crates/netdump-cli/src/main.rs: the arguments, and the options of the socket
--   Output     crates/netdump-cli/src/main.rs: `print_packet` and what it calls: times, addresses,
--              names and flags, the line of a packet, hex and ASCII dumps
--   Capture    crates/netdump-cli/src/main.rs: the filter's text and program (Program), the two loops
--              (Loop), of which the one over a file takes the list of what its reader returns, the live
--              loop that calls `next_packet` in each round (Socket), `run` with all its ends (Run) and `main` (Main)
-- What the proofs stand on:
--   Base       shared names, Boolean tests, lists as slices, facts on `&`, `|` and `^`
--   Listing    the calls of the assembler as data, and which of them each compiler makes
--   Link       from calls to a resolved program: placed labels, jumps, panics, ranges
--   Meaning    what a filter says of a packet, with no label and no instruction
--   Correct    the compiled program decides what the filter says, and where that surprises
--   Ring       Slots, Inv, Kernel, Moves, Fifo: what holds of kernel and reader in every state;
--              Gets, Wait, Fuel, Live: how a call of `next_packet` ends; Ahead: the packets that are
--              still in the ring; Timed, Passed: what holds of each packet in the polls' blocks;
--              Layout: the sizes; Order and Opened: the calls and the result of opening; Default: the
--              default interface
--   Capture    Select, Live, Ends, Whole, Times: what the loops write, how they end and what times
--              they print; Way: what `-Q` asks for; Stream: the packets that polls bring, as a list;
--              Stands, Results, Place, Served, Sniff: the live loop over a socket, round by round;
--              Start, Alive, Files: `run` as a whole; Replay, Kept, Played, Again: the file that a
--              run leaves, read by another
--   Output     Width, Columns, Clock: the widths of what is printed; Date, Civil: the calendar by its
--              months and in closed form; ReadBack: reading times
--   Tests      runs on concrete packets and filters
--
-- Bounds: a `u8`, `u16` or `u32` is a number with its bound as a hypothesis where a theorem needs
-- it, and each wrap-around is written out; `usize` has 64 bits, and a slice has fewer than 2^63
-- elements. The loop of `Vm::exec` runs on fuel, one more than the program's length: each round
-- moves `pc` forwards, so that this is enough.
--
-- The first loop of `epoch_days_to_date` has one more fuel than days, of which each round
-- takes 365 or more; its days start at the epoch. A shift as wide as its number panics, as in
-- a debug build.
--
-- A call of `next_packet` runs on fuel and on the list of what its polls find; more rounds
-- than blocks for each poll are enough. The live loop over a socket runs on rounds, more than
-- the packets that the polls bring; a loop that is given fewer ends as `out_of_rounds`. The
-- kernel is taken to retire blocks in the order of the ring, each into a block that its status
-- gives to the kernel, and to drop what finds none; where the packets of the polls are followed
-- to the file, it brings no more blocks at once than the ring has. Of a filter in the kernel it is
-- taken only that it hands over no packet that the attached program, run by the interpreter,
-- rejects: where Linux rejects a packet for a load behind its end, that says nothing of it. The
-- live loop is also written over a list of what `next_packet` returns (`live_loop`, `results`),
-- which is a view for proofs and models no code of its own. `+=` on the `u32` offset of a packet
-- wraps, as in a release build.
--
-- Times of packets are far below the width of an `i64`. 85 hundredths of a width, which the code
-- computes with floating point, is computed with numbers: both are the same for every `u16`.
--
-- Not modelled: the parser that pest generates, clap, pcap files and etherparse, which are
-- parameters where something depends on them, as the columns of the terminal are; flushing;
-- and the addresses and file descriptors behind the ring's blocks. A reader of a file is taken
-- to return the packets that were written to it.
pub mod Base
pub mod Bpf
pub mod Vm
pub mod Ast
pub mod Assembler
pub mod Compiler
pub mod Listing
pub mod Link
pub mod Meaning
pub mod Correct
pub mod Parser
pub mod Core
pub mod Ring
pub mod Args
pub mod Output
pub mod Capture
pub mod Tests
