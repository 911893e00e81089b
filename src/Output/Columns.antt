-- ===== src/Output/Columns.antt =====
-- How many bytes the hex dumps of crates/netdump-cli/src/main.rs print on a line.
use netdump.Base.{ℕ, ◌+◌, ◌*◌, ◌≤◌, ◌%◌, ◌≡◌, arith}
use netdump.Output.Packets.{hex_bytes_per_line}

-- A line of the hex dump has 16, 32, 48 or 64 bytes, and, for a terminal of 64 columns or more, the
-- four spaces, an offset of four digits, a colon, the bytes and the gaps fit its width.
pub hex_bytes_per_line-fits :
    (term_width : ℕ)
    → 64 ≤ term_width
    → (hex_bytes_per_line term_width % 16 ≡ 0)
      × (16 ≤ hex_bytes_per_line term_width)
      × (hex_bytes_per_line term_width ≤ 64)
      × (10 + 3 * hex_bytes_per_line term_width ≤ term_width)
unfolding hex_bytes_per_line
hex_bytes_per_line-fits w h = ground arith
