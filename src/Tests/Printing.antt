-- ===== src/Tests/Printing.antt =====
-- Dates, hex dumps and names.
use netdump.Base.{◌≡◌, ◌+◌, refl, arith, some, [], ◌∷◌, length, bit_and, ◌==◌}
use netdump.Output.Date.{Date, year_loop, epoch_days_to_date}
use netdump.Output.Civil.{IsCivil, civil_days, epoch, epoch_days_to_date-IsCivil}
use netdump.Output.Hex.{hex_columns}
use netdump.Output.Width.{length-hex_columns}
use netdump.Output.Names.{format_tcp_flags, format_tcp_flags-Shows, Shows}

-- 29 February 2024.
epoch_days_to_date-leap : epoch_days_to_date 19782 ≡ some (2024, 2, 29)
unfolding epoch_days_to_date year_loop
epoch_days_to_date-leap = refl

-- The closed form, on the days before and after the end of a February.
civil_days-leap : civil_days (2024, 2, 29) + 1 ≡ civil_days (2024, 3, 1)
civil_days-leap = refl

civil_days-century : civil_days (2100, 2, 28) + 1 ≡ civil_days (2100, 3, 1)
civil_days-century = refl

epoch_days_to_date-IsCivil_example :
    (date : Date) × (epoch_days_to_date 19782 ≡ some date)
    × IsCivil date
    × (civil_days date ≡ epoch + 19782)
epoch_days_to_date-IsCivil_example = epoch_days_to_date-IsCivil 19782

length-hex_columns_example : length (hex_columns 4 (1 ∷ 2 ∷ 3 ∷ [])) ≡ 15
length-hex_columns_example =
    length-hex_columns 2 (1 ∷ 2 ∷ 3 ∷ []) (omega arith) (omega arith) (omega arith)

format_tcp_flags-Shows_example :
    Shows
      (bit_and 0x12 0x01 == 0)
      (bit_and 0x12 0x02 == 0)
      (bit_and 0x12 0x04 == 0)
      (bit_and 0x12 0x08 == 0)
      (bit_and 0x12 0x10 == 0)
      (bit_and 0x12 0x20 == 0)
      (format_tcp_flags 0x12)
format_tcp_flags-Shows_example = format_tcp_flags-Shows 0x12
