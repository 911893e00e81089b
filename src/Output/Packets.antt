-- ===== src/Output/Packets.antt =====
-- `print_packet` of crates/netdump-cli/src/main.rs: what it prints of a packet, and the context that
-- it leaves. The width of the terminal and what etherparse slices are parameters.
use netdump.Base.{
  ℕ, zero, suc, ◌-◌, ◌*◌, ◌/◌, ◌&&◌, ◌||◌, Option, none, some, List, [], ◌∷◌, ◌++◌, ltb, leb, ◌==◌,
  if◌then◌else◌,
}
use netdump.Core.{Packet, SlicedPacket, parse_packet}
use netdump.Output.Hex.{chunks, ascii_column, format_hex, format_hex_ascii}
use netdump.Output.Stamp.{PktCtx, show_time, seen_at}
use netdump.Args.{Args}
use netdump.Output.Line.{join, quiet_line, full_line}

-- What the `ioctl` for the size of the terminal gives: its columns, where it succeeds.
abbrev pub terminal_width : Option ℕ → ℕ
terminal_width none = 80
terminal_width (some ws_col) = if ltb 0 ws_col then ws_col else 80

-- `(w as f64 * 0.85) as usize`, which is this for every width that a `u16` holds.
abbrev pub most_of : ℕ → ℕ
most_of w = w * 85 / 100

abbrev pub clamp : ℕ → ℕ → ℕ → ℕ
clamp lowest highest n = if ltb n lowest then lowest else (if ltb highest n then highest else n)

unfoldable pub hex_bytes_per_line : ℕ → ℕ
hex_bytes_per_line term_width =
    let target = most_of term_width in
    let max_n = if ltb 12 target then (target - 12) / 3 else 16 in clamp 16 64 (max_n / 16 * 16)

abbrev pub ascii_lines : List (List ℕ) → List (List ℕ)
ascii_lines [] = []
ascii_lines (chunk ∷ cs) = ascii_column chunk ∷ ascii_lines cs

abbrev pub format_ascii : List ℕ → ℕ → List ℕ
format_ascii payload bpl = join 10 (ascii_lines (chunks bpl payload))

-- `data.get(n..)`.
abbrev pub get_from : ℕ → List ℕ → Option (List ℕ)
get_from zero bytes = some bytes
get_from (suc n) [] = none
get_from (suc n) (b ∷ bytes) = get_from n bytes

module _ (slice : List ℕ → Option SlicedPacket) (term_width : ℕ) (args : Args) where
  abbrev pub do_hex : List ℕ → List ℕ
  do_hex payload =
      let bpl = hex_bytes_per_line term_width in
      (if ltb 0 args.hex then format_hex payload bpl else [])
      ++ (if ltb 0 args.hex_ascii then format_hex_ascii payload bpl else [])

  abbrev pub hex_of : Option (List ℕ) → List ℕ
  hex_of none = []
  hex_of (some payload) = do_hex payload

  -- With `-xx` or `-XX` the link-level header too.
  abbrev pub hex_part : List ℕ → List ℕ
  hex_part bytes =
      if ltb 0 args.hex || ltb 0 args.hex_ascii
      then (if leb 2 args.hex || leb 2 args.hex_ascii
          then do_hex bytes
          else hex_of (get_from 14 bytes))
      else []

  abbrev pub ascii_of : Option (List ℕ) → List ℕ
  ascii_of none = []
  ascii_of (some []) = []
  ascii_of (some (b ∷ payload)) =
      format_ascii (b ∷ payload) (clamp 64 512 (most_of term_width)) ++ (10 ∷ [])

  abbrev pub ascii_part : List ℕ → List ℕ
  ascii_part bytes = if args.ascii && args.hex_ascii == 0 then ascii_of (get_from 14 bytes) else []

  abbrev pub printed : Packet → PktCtx → List ℕ
  printed packet ctx =
      let ts = show_time args.timestamp_format packet.meta ctx in
      let info = parse_packet slice packet.bytes in
      if args.quiet
      then quiet_line args ts ctx packet.meta info ++ (10 ∷ [])
      else full_line args ts ctx packet info
        ++ (10 ∷ hex_part packet.bytes ++ ascii_part packet.bytes)

  unfoldable pub print_packet : Packet → PktCtx → List ℕ × PktCtx
  print_packet packet ctx = (printed packet ctx, seen_at packet.meta ctx)
