-- ===== src/Output/Stamp.antt =====
-- The time in front of a line that `print_packet` of crates/netdump-cli/src/main.rs prints. Seconds
-- are far below the width of an `i64`, as those of a ring or of a capture file are, so that no
-- difference of times overflows; they start at the epoch.
use netdump.Base.{
  ℕ, zero, suc, ◌+◌, ◌-◌, ◌*◌, ◌/◌, ◌%◌, Bool, Option, none, some, List, [], ◌∷◌, ◌++◌, ltb, ◌==◌,
  if◌then◌else◌, length,
}
use netdump.Base.Text.{decimal}
use netdump.Core.{PacketMeta}
use netdump.Output.Date.{Date, epoch_days_to_date}
use netdump.Output.Hex.{spaces}

-- `PktCtx`: the number of the packet, the time of the one before and of the first.
pub record PktCtx : Type 0 where
  pub num : ℕ
  pub prev_ts : ℕ × ℕ
  pub first_ts : ℕ × ℕ

abbrev pub zeros : ℕ → List ℕ
zeros zero = []
zeros (suc n) = 48 ∷ zeros n

-- `{:0w}` of a number that is not negative.
abbrev pub zero_padded : ℕ → ℕ → List ℕ
zero_padded w n = zeros (w - length (decimal n)) ++ decimal n

-- `{:>4}`.
abbrev pub right_aligned : ℕ → ℕ → List ℕ
right_aligned w n = spaces (w - length (decimal n)) ++ decimal n

-- `{:03}` of an `i64`: the sign counts as a character, and 0 has none.
abbrev pub signed_padded : Bool → ℕ → List ℕ
signed_padded negative n =
    if n == 0 then zero_padded 3 n else (if negative then 45 ∷ zero_padded 2 n else zero_padded 3 n)

abbrev pub micros : ℕ × ℕ → ℕ
micros (sec, usec) = sec * 1_000_000 + usec

abbrev pub delta_of : ℕ × ℕ → ℕ × ℕ → ℕ
delta_of later earlier =
    if ltb (micros later) (micros earlier)
    then micros earlier - micros later
    else micros later - micros earlier

-- `{:03}.{:06}` of a difference: `/` rounds to 0, and the rest is an absolute value.
unfoldable pub delta_text : Bool → ℕ → List ℕ
delta_text negative delta =
    signed_padded negative (delta / 1_000_000) ++ (46 ∷ zero_padded 6 (delta % 1_000_000))

-- The time from one to another.
unfoldable pub show_delta : ℕ × ℕ → ℕ × ℕ → List ℕ
show_delta later earlier = delta_text (ltb (micros later) (micros earlier)) (delta_of later earlier)

-- `{:02}:{:02}:{:02}.{:06}`.
abbrev pub show_clock : ℕ → ℕ → List ℕ
show_clock sec usec =
    zero_padded 2 (sec / 3600 % 24)
    ++ (58 ∷ zero_padded 2 (sec / 60 % 60)
        ++ (58 ∷ zero_padded 2 (sec % 60) ++ (46 ∷ zero_padded 6 usec)))

-- `{:04}-{:02}-{:02} `. The loops of `epoch_days_to_date` always end.
abbrev pub show_date : Option Date → List ℕ
show_date none = []
show_date (some (y, mon, day)) =
    zero_padded 4 y ++ (45 ∷ zero_padded 2 mon ++ (45 ∷ zero_padded 2 day ++ (32 ∷ [])))

-- The text for each number of `-t` flags.
unfoldable pub show_time : ℕ → PacketMeta → PktCtx → List ℕ
show_time format meta ctx =
    if format == 1
    then []
    else if format == 2
    then decimal meta.ts_sec
    else if format == 3
    then show_delta (meta.ts_sec, meta.ts_usec) ctx.prev_ts
    else if format == 4
    then show_date (epoch_days_to_date (meta.ts_sec / 86400))
      ++ show_clock (meta.ts_sec % 86400) meta.ts_usec
    else if format == 5
    then show_delta (meta.ts_sec, meta.ts_usec) ctx.first_ts
    else show_clock meta.ts_sec meta.ts_usec

-- The time of the packet becomes the one before, for every format.
abbrev pub seen_at : PacketMeta → PktCtx → PktCtx
seen_at meta ctx = record ctx { prev_ts = (meta.ts_sec, meta.ts_usec) }
