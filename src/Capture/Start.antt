-- ===== src/Capture/Start.antt =====
-- What `run` of crates/netdump-cli/src/main.rs does before its live loop, where each part gives a result.
use Prim.Native.String.{String}
use netdump.Base.{
  ℕ, ◌≤◌, ◌<◌, ◌≡◌, refl, sym, ap, ◌∙◌, Bool, true, false, Option, none, some, List, if◌then◌else◌,
}
use netdump.Bpf.{Instruction}
use netdump.Ast.{FilterAst}
use netdump.Assembler
use netdump.Compiler.{compile}
use netdump.Vm.{exec}
use netdump.Core.{SlicedPacket}
use netdump.Args.{Args, ifname, options_of, kernel_filter}
use netdump.Link.Panic.{emitted}
use netdump.Meaning.{matches}
use netdump.Parser.Text.{Parsed}
use netdump.Parser.Net.{Pairs, AddrParser}
use netdump.Parser.Build.{parse}
use netdump.Parser.Filters.{parse-decides}
use netdump.Ring.Block.{is_user}
use netdump.Ring.Reader.{AfPacketSocket, Poll}
use netdump.Ring.System.{IsOpened}
use netdump.Ring.Interfaces.{IfAddrs, Result, list_interfaces}
use netdump.Ring.Open.{Call, Kernel, Outcome, open_with_options}
use netdump.Ring.Opened.{fresh_system, is_some, is_some-raw_option, socket-at, open-IsOpened}
use netdump.Capture.Loop.{PcapPacket, idle}
use netdump.Capture.Socket.{live_socket}
use netdump.Capture.Program.{
  FileText, Prepared, ready, Program, compiled, parsed, filter_expr, filter_program, program_of,
  Run, finished,
}
use netdump.Capture.Run.{
  index_or_zero, after_result, after_outcome, iface_mac, sniff, open_and_sniff, all_listed,
  after_create, capture, run_prepared, run,
}

pub after_create-none : (b : Bool) (r : Run) → after_create (if b then none else none) r ≡ r
after_create-none true r = refl
after_create-none false r = refl

module _ (slice : List ℕ → Option SlicedPacket) (term_width : ℕ)
    (write_error : List PcapPacket → Option (List ℕ)) (args : Args) (k : Kernel) (addrs : IfAddrs)
    (rounds fuel : ℕ) (polls : List Poll) (std : AddrParser) (grammar : String → Parsed Pairs) where
  -- What `run` comes to where each part before the loop gives a result.
  run-sniffs :
      (filter_file : Option FileText) {expr : String} {ast : FilterAst} {prog : List Instruction}
      {name mac : List ℕ} {calls : List Call} {sock : AfPacketSocket}
      → args.list_interfaces ≡ false
      → filter_expr filter_file args.filter ≡ ready (some expr)
      → parse std grammar expr ≡ Parsed.ok ast
      → compile ast ≡ Assembler.Result.ok prog
      → args.dump_bpf ≡ false
      → ifname args (λ n. index_or_zero (k.index_of n)) addrs ≡ Result.ok name
      → open_with_options k name (options_of args (some prog)) ≡ (calls, Outcome.ok sock)
      → iface_mac k args.direction name ≡ Outcome.ok mac
      → run slice term_width write_error args k addrs rounds fuel polls none std grammar filter_file
          none
        ≡ sniff slice term_width write_error args k rounds fuel polls (some prog) sock mac
  unfolding run filter_program
  run-sniffs filter_file {prog = prog} {name} {sock = sock} no_list given parses compiles runs named
        opens has_mac =
      ap (λ (b : Bool). if b then listing else all (filter_program std grammar filter_file args))
        no_list
      ∙ ap (λ (p : Prepared (Option String)). all (program_of std grammar args.dump_bpf p)) given
      ∙ ap (λ (t : Parsed FilterAst). all (parsed args.dump_bpf t)) parses
      ∙ ap (λ (c : Assembler.Result (List Instruction)). all (compiled args.dump_bpf c)) compiles
      ∙ ap (λ (b : Bool). all (compiled b (Assembler.Result.ok prog))) runs
      ∙ after_create-none args.write live
      ∙ ap
          (λ (r : Result (List ℕ)).
            after_result r
              (open_and_sniff slice term_width write_error args k rounds fuel polls (some prog)))
          named
      ∙ ap
          (λ (o : List Call × Outcome AfPacketSocket).
            after_outcome o.1 λ s. after_outcome (iface_mac k args.direction name) (go s))
          opens
      ∙ ap (λ (m : Outcome (List ℕ)). after_outcome m (go sock)) has_mac
    where
      all : Prepared Program → Run
      all = run_prepared slice term_width write_error args k addrs rounds fuel polls none none

      listing : Run
      listing = all_listed (list_interfaces (λ n. index_or_zero (k.index_of n)) addrs)

      live : Run
      live =
          capture slice term_width write_error args k addrs rounds fuel polls none none (some prog)

      go : AfPacketSocket → List ℕ → Run
      go = sniff slice term_width write_error args k rounds fuel polls (some prog)

  -- What `run` starts its live loop with.
  pub record Starts (filter_file : Option FileText) (ast : FilterAst) (mac : List ℕ)
      (P : AfPacketSocket → Type 0) : Type 0 where
    pub prog : List Instruction
    pub sock : AfPacketSocket
    pub compiles : compile ast ≡ Assembler.Result.ok prog
    pub decides : (packet : List ℕ) → exec prog packet ≡ some (matches packet ast)
    pub runs :
        run slice term_width write_error args k addrs rounds fuel polls none std grammar filter_file
          none
        ≡ finished (
            live_socket slice term_width write_error args
              (some prog)
              mac
              rounds
              fuel
              polls
              sock
              idle)
    pub is_opened : IsOpened (fresh_system sock)
    pub some_blocks : sock.block_nr ≡ args.block_nr
    pub attached : sock.kernel_filter_attached ≡ is_some (kernel_filter args (some prog))
    pub mapped : sock.ring.blocks ≡ k.fresh
    pub holds : P sock

  -- Whatever holds of the socket that is opened.
  pub run-Starts :
      (P : AfPacketSocket → Type 0) (filter_file : Option FileText) {expr : String}
      {ast : FilterAst} {name mac : List ℕ}
      → args.list_interfaces ≡ false
      → filter_expr filter_file args.filter ≡ ready (some expr)
      → parse std grammar expr ≡ Parsed.ok ast
      → emitted ast ≤ 257
      → args.dump_bpf ≡ false
      → ifname args (λ n. index_or_zero (k.index_of n)) addrs ≡ Result.ok name
      → iface_mac k args.direction name ≡ Outcome.ok mac
      → ((prog : List Instruction)
          → (calls : List Call) × (sock : AfPacketSocket) × (open_with_options k name
                (options_of args (some prog))
              ≡ (calls, Outcome.ok sock))
            × P sock)
      → ((i : ℕ) → is_user (k.fresh i) ≡ false)
      → 0 < args.block_nr
      → Starts filter_file ast mac P
  run-Starts P filter_file {expr} {ast} {name} {mac} no_list given parses size no_dump named has_mac
        opens fresh some_blocks =
      let (prog, compiles, decides) = parse-decides std grammar expr parses size in
      let (calls, sock, opened, holds) = opens prog in
      let (is_opened, blocks, attached) =
        open-IsOpened k name (options_of args (some prog)) opened some_blocks fresh in
      let (index, same) = socket-at k name (options_of args (some prog)) opened in
      record {
        prog = prog;
        sock = sock;
        compiles = compiles;
        decides = decides;
        runs = run-sniffs filter_file no_list given parses compiles no_dump named opened has_mac;
        is_opened = is_opened;
        some_blocks = blocks;
        attached = attached ∙ is_some-raw_option (kernel_filter args (some prog));
        mapped = sym (ap (λ (s : AfPacketSocket). s.ring.blocks) same);
        holds = holds;
      }
