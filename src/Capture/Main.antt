-- ===== src/Capture/Main.antt =====
-- `main` of crates/netdump-cli/src/main.rs: the code that the process ends with, and what it prints to the
-- error output.
use Prim.Native.String.{String}
use netdump.Base.{ℕ, ◌+◌, Option, none, some, List, [], ◌∷◌, ◌++◌, length}
use netdump.Base.Text.{codes, decimal}
use netdump.Bpf.{Instruction}
use netdump.Core.{NetdumpError, SlicedPacket, show_error}
use netdump.Args.{Args}
use netdump.Parser.Text.{Parsed}
use netdump.Parser.Net.{Pairs, AddrParser}
use netdump.Ring.Reader.{Poll}
use netdump.Ring.Interfaces.{IfAddrs}
use netdump.Ring.Open.{Kernel}
use netdump.Output.Packets.{terminal_width}
use netdump.Capture.Loop.{PcapPacket, Finish, done, failed, waiting, out_of_rounds}
use netdump.Capture.Program.{FileText, Run, finished, dumped, lists, fails, panicked}
use netdump.Capture.Run.{PcapFile, run}

-- `{inst:?}`.
abbrev pub show_instruction : Instruction → List ℕ
show_instruction i =
    codes "Instruction { code: "
    ++ (decimal i.code
        ++ (codes ", jt: "
            ++ (decimal i.jt
                ++ (codes ", jf: "
                    ++ (decimal i.jf ++ (codes ", k: " ++ (decimal i.k ++ codes " }")))))))

abbrev pub dump_lines : ℕ → List Instruction → List ℕ
dump_lines n [] = []
dump_lines n (i ∷ prog) =
    codes "  "
    ++ (decimal n
        ++ (codes ": " ++ (show_instruction i ++ (codes "\n" ++ dump_lines (n + 1) prog))))

abbrev pub dump : List Instruction → List ℕ
dump prog =
    codes "CBPF program ("
    ++ (decimal (length prog) ++ (codes " instructions):\n" ++ dump_lines 0 prog))

-- The code that the process ends with and its last lines on the error output. A panic ends it with
-- 101, after a message that is left out.
pub record Exit : Type 0 where
  pub status : ℕ
  pub errors : List ℕ

abbrev pub on_error : NetdumpError → Option Exit
on_error e = some (record { status = 1; errors = codes "error: " ++ (show_error e ++ codes "\n") })

abbrev pub on_finish : Finish → Option Exit
on_finish (done s) = some (record {
  status = 0;
  errors = codes "captured " ++ (decimal s.captured ++ codes " packets\n");
})
on_finish (failed e s) = on_error e
on_finish (waiting s) = none
on_finish (out_of_rounds s) = none

abbrev pub exit_of : Run → Option Exit
exit_of (finished f) = on_finish f
exit_of (dumped prog) = some (record { status = 0; errors = dump prog })
exit_of (fails e) = on_error e
exit_of (lists lines) = some (record { status = 0; errors = [] })
exit_of panicked = some (record { status = 101; errors = [] })

-- `main`; the columns of the terminal are what the system says.
abbrev pub main :
    (List ℕ → Option SlicedPacket)
    → Option ℕ
    → (List PcapPacket → Option (List ℕ))
    → Args
    → Kernel
    → IfAddrs
    → ℕ
    → ℕ
    → List Poll
    → Option (List ℕ)
    → AddrParser
    → (String → Parsed Pairs)
    → Option FileText
    → Option PcapFile
    → Option Exit
main slice ws_col write_error args k addrs rounds fuel polls create_error std grammar filter_file
      read =
    exit_of (
      run slice (terminal_width ws_col) write_error args k addrs rounds fuel polls create_error std
        grammar filter_file read)
