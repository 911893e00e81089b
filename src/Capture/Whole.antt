-- ===== src/Capture/Whole.antt =====
-- From the text of a filter to the packets in the file that `run` writes.
use Prim.Native.String.{String}
use netdump.Base.{
  ℕ, ◌≤◌, ◌≡◌, refl, ap, ◌∙◌, subst, Bool, true, false, Option, none, some, List, [], ◌∷◌,
  if◌then◌else◌,
}
use netdump.Bpf.{Instruction}
use netdump.Ast.{FilterAst}
use netdump.Assembler.{Result}
use netdump.Vm.{exec}
use netdump.Core.{SlicedPacket}
use netdump.Args.{Args}
use netdump.Link.Panic.{emitted}
use netdump.Meaning.{matches}
use netdump.Parser.Text.{Parsed}
use netdump.Parser.Net.{Pairs, AddrParser}
use netdump.Parser.Build.{parse}
use netdump.Parser.Filters.{parse-decides}
use netdump.Capture.Loop.{PcapPacket, Received, Finish, idle, is_accepted, read_loop}
use netdump.Capture.Select.{Adds, up_to, accepted, before_failure, read_loop-Adds}
use netdump.Capture.Program.{
  FileText, Prepared, ready, compiled, parsed, filter_expr, filter_program, program_of, read_all,
  finished, run_file,
}

-- The packets that a filter means.
abbrev pub matched : FilterAst → List PcapPacket → List PcapPacket
matched ast [] = []
matched ast (p ∷ ps) = if matches p.bytes ast then p ∷ matched ast ps else matched ast ps

accepted-matched :
    (prog : List Instruction) (ast : FilterAst)
    → ((packet : List ℕ) → exec prog packet ≡ some (matches packet ast))
    → (ps : List PcapPacket) → accepted (some prog) ps ≡ matched ast ps
accepted-matched prog ast h [] = refl
accepted-matched prog ast h (p ∷ ps) =
    let rest = accepted (some prog) ps in
    ap (λ (o : Option Bool). if is_accepted o then p ∷ rest else rest) (h p.bytes)
    ∙ ap (λ (qs : List PcapPacket). if matches p.bytes ast then p ∷ qs else qs)
        (accepted-matched prog ast h ps)

module _ (slice : List ℕ → Option SlicedPacket) (term_width : ℕ)
    (write_error : List PcapPacket → Option (List ℕ)) (args : Args) (std : AddrParser)
    (grammar : String → Parsed Pairs) where
  -- Where a filter is given, in a file or by the words of the command line, that parses to a tree of
  -- at most 257 instructions, and the packets of a file are written to another, each without an error:
  -- `run` ends the loop, neither with a panic nor before it, and has written exactly the packets before
  -- the first error of the reader that the filter means, no more of them than `--count` says.
  pub run_file-Adds :
      (filter_file : Option FileText) {expr : String} {ast : FilterAst}
      (rs : List (Received PcapPacket (List ℕ)))
      → filter_expr filter_file args.filter ≡ ready (some expr)
      → parse std grammar expr ≡ Parsed.ok ast
      → emitted ast ≤ 257
      → args.dump_bpf ≡ false
      → args.write ≡ true
      → ((ps : List PcapPacket) → write_error ps ≡ none)
      → (f : Finish) × (run_file slice term_width write_error args std grammar filter_file rs
          ≡ finished f)
        × Adds idle (up_to args.count 0 (matched ast (before_failure rs))) f
  unfolding run_file filter_program
  run_file-Adds filter_file {expr} {ast} rs given parses size runs writes fine =
      let (prog, compiles, decides) = parse-decides std grammar expr parses size in
      let f = read_loop slice term_width write_error args (some prog) rs idle in
      (
        f,
        ap
              (λ (p : Prepared (Option String)).
                read_all slice term_width write_error args rs
                  (program_of std grammar args.dump_bpf p))
              given
            ∙ ap
                (λ (t : Parsed FilterAst).
                  read_all slice term_width write_error args rs (parsed args.dump_bpf t))
                parses
            ∙ ap
                (λ (c : Result (List Instruction)).
                  read_all slice term_width write_error args rs (compiled args.dump_bpf c))
                compiles
            ∙ ap
                (λ (b : Bool).
                  read_all slice term_width write_error args rs (compiled b (Result.ok prog)))
                runs,
        subst (λ (ps : List PcapPacket). Adds idle (up_to args.count 0 ps) f)
            (accepted-matched prog ast decides (before_failure rs))
            (read_loop-Adds slice term_width write_error args (some prog) writes fine rs idle),
      )
