-- ===== src/Capture/Alive.antt =====
-- From the text of a filter to what `run` writes of the packets that the kernel produces.
use Prim.Native.String.{String}
use netdump.Base.{ℕ, ◌≡◌, Bool, true, false, some, List, if◌then◌else◌}
use netdump.Bpf.{Instruction}
use netdump.Ast.{FilterAst}
use netdump.Vm.{exec}
use netdump.Core.{Packet}
use netdump.Args.{Args}
use netdump.Meaning.{matches}
use netdump.Assembler
use netdump.Capture.Way.{goes}

-- The packets that a filter means and that go the way that is asked for.
abbrev pub means : FilterAst → Args → List ℕ → Packet → Bool
means ast args mac p = if matches p.bytes ast then goes args.direction mac p.bytes else false

-- The system hands over no packet that an attached program rejects.
abbrev pub Admitted : Args → List Instruction → Packet → Type 0
Admitted args prog p = args.userspace_filter ≡ false → exec prog p.bytes ≡ some true
