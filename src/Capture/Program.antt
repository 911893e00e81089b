-- ===== src/Capture/Program.antt =====
-- What `run` in crates/netdump-cli/src/main.rs does before the loops: the text of the filter and its
-- program. The file of `-F` and the parser that the grammar makes are parameters.
use Prim.Native.String.{String, ◌∷◌ as ◌∷ₛ◌, [] as []ₛ, ◌++◌ as ◌<>◌}
use Prim.Native.Char.{code}
use netdump.Base.{
  ℕ, Bool, true, false, ◌||◌, ◌&&◌, Option, none, some, List, [], ◌∷◌, leb, ◌==◌, if◌then◌else◌,
}
use netdump.Base.Text.{codes}
use netdump.Bpf.{Instruction}
use netdump.Ast.{FilterAst}
use netdump.Assembler.{Result}
use netdump.Compiler.{compile}
use netdump.Core.{NetdumpError, SlicedPacket}
use netdump.Args.{Args}
use netdump.Parser.Text.{Parsed, message}
use netdump.Parser.Net.{Pairs, AddrParser}
use netdump.Parser.Build.{parse}
use netdump.Capture.Loop.{PcapPacket, Received, Finish, idle, read_loop}

-- `char::is_whitespace`.
abbrev pub is_whitespace : ℕ → Bool
is_whitespace c =
    leb 9 c && leb c 13
    || (c == 32
        || (c == 0x85
            || (c == 0xa0
                || (c == 0x1680
                    || (leb 0x2000 c && leb c 0x200a
                        || (c == 0x2028
                            || (c == 0x2029 || (c == 0x202f || (c == 0x205f || c == 0x3000)))))))))

abbrev pub is_blank : String → Bool
is_blank []ₛ = true
is_blank (c ∷ₛ s) = false

abbrev pub trim_start : String → String
trim_start []ₛ = []ₛ
trim_start (c ∷ₛ s) = let rest = trim_start s in if is_whitespace (code c) then rest else c ∷ₛ s

abbrev pub trim_end : String → String
trim_end []ₛ = []ₛ
trim_end (c ∷ₛ s) =
    let rest = trim_end s in if is_blank rest && is_whitespace (code c) then []ₛ else c ∷ₛ rest

abbrev pub trim : String → String
trim s = trim_end (trim_start s)

-- `join(" ")`.
abbrev pub join_words : List String → String
join_words [] = ""
join_words (s ∷ []) = s
join_words (s ∷ t ∷ ss) = s <> (" " <> join_words (t ∷ ss))

-- What reading the file of `-F` gives: its text, or what the system says.
pub data FileText : Type 0 where
  text : String → FileText
  unreadable : List ℕ → FileText

-- What is known before the loops: a result, an error of `run`, or a panic.
pub data Prepared (A : Type 0) : Type 0 where
  ready : A → Prepared A
  refused : NetdumpError → Prepared A
  panics : Prepared A

abbrev pub text_of_file : String → Prepared (Option String)
text_of_file s =
    if is_blank s then refused (NetdumpError.parse (codes "empty filter file")) else ready (some s)

abbrev pub filter_expr : Option FileText → List String → Prepared (Option String)
filter_expr (some (unreadable e)) words = refused (NetdumpError.io e)
filter_expr (some (text s)) words = text_of_file (trim s)
filter_expr none words =
    let s = trim (join_words words) in ready (if is_blank s then none else some s)

-- The program is dumped, or it is the filter of the loops.
pub data Program : Type 0 where
  dumps : List Instruction → Program
  filters : Option (List Instruction) → Program

abbrev pub compiled : Bool → Result (List Instruction) → Prepared Program
compiled dump_bpf (Result.panic p) = panics
compiled dump_bpf (Result.ok prog) = ready (if dump_bpf then dumps prog else filters (some prog))

abbrev pub parsed : Bool → Parsed FilterAst → Prepared Program
parsed dump_bpf (Parsed.error (message e)) = refused (NetdumpError.parse (codes e))
parsed dump_bpf Parsed.shift_overflow = panics
parsed dump_bpf (Parsed.ok ast) = compiled dump_bpf (compile ast)

module _ (std : AddrParser) (grammar : String → Parsed Pairs) where
  abbrev pub program_of : Bool → Prepared (Option String) → Prepared Program
  program_of dump_bpf (refused e) = refused e
  program_of dump_bpf panics = panics
  program_of dump_bpf (ready (some expr)) = parsed dump_bpf (parse std grammar expr)
  program_of dump_bpf (ready none) =
      if dump_bpf
      then refused (NetdumpError.parse (codes "no filter expression to dump"))
      else ready (filters none)

  unfoldable pub filter_program : Option FileText → Args → Prepared Program
  filter_program filter_file args = program_of args.dump_bpf (filter_expr filter_file args.filter)

-- How `run` ends: with its loop, with a program that is dumped, with a list of interfaces, or before.
pub data Run : Type 0 where
  finished : Finish → Run
  dumped : List Instruction → Run
  lists : List ℕ → Run
  fails : NetdumpError → Run
  panicked : Run

-- `run` for a file of packets that can be opened.
module _ (slice : List ℕ → Option SlicedPacket) (term_width : ℕ)
    (write_error : List PcapPacket → Option (List ℕ)) (args : Args) where
  abbrev pub read_all : List (Received PcapPacket (List ℕ)) → Prepared Program → Run
  read_all rs (refused e) = fails e
  read_all rs panics = panicked
  read_all rs (ready (dumps prog)) = dumped prog
  read_all rs (ready (filters program)) =
      finished (read_loop slice term_width write_error args program rs idle)

  unfoldable pub run_file :
      AddrParser
      → (String → Parsed Pairs)
      → Option FileText
      → List (Received PcapPacket (List ℕ))
      → Run
  run_file std grammar filter_file rs = read_all rs (filter_program std grammar filter_file args)
