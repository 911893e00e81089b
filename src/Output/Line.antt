-- ===== src/Output/Line.antt =====
-- The line that `print_packet` of crates/netdump-cli/src/main.rs prints of a packet.
use netdump.Base.{
  ℕ, zero, suc, ◌+◌, ◌*◌, Bool, true, false, ◌&&◌, Option, none, some, List, [], ◌∷◌, ◌++◌, ltb,
  leb, ◌==◌, if◌then◌else◌, length, bit_and, byte_at, u16_be, u32_be,
}
use netdump.Base.Text.{codes, decimal}
use netdump.Core.{Packet, PacketMeta, PacketInfo}
use netdump.Args.{Args}
use netdump.Output.Hex.{hex_byte}
use netdump.Output.Names.{protocol_name, format_tcp_flags, format_mac}
use netdump.Output.Stamp.{PktCtx, right_aligned}
use netdump.Output.Addr.{format_addr}

abbrev pub is_empty {ℓ} : {A : Type ℓ} → List A → Bool
is_empty [] = true
is_empty (x ∷ xs) = false

abbrev pub join : ℕ → List (List ℕ) → List ℕ
join c [] = []
join c (s ∷ []) = s
join c (s ∷ t ∷ ss) = s ++ (c ∷ join c (t ∷ ss))

-- The bytes from one place up to another.
abbrev pub range_of : ℕ → ℕ → List ℕ → List ℕ
range_of start zero bytes = []
range_of start (suc n) bytes = byte_at bytes start ∷ range_of (start + 1) n bytes

abbrev pub is_number : ℕ → Option ℕ → Bool
is_number n none = false
is_number n (some k) = n == k

abbrev pub or_zero : Option ℕ → ℕ
or_zero none = 0
or_zero (some n) = n

abbrev pub u16_at : List ℕ → ℕ → ℕ
u16_at bytes i = u16_be (byte_at bytes i) (byte_at bytes (i + 1))

abbrev pub u32_at : List ℕ → ℕ → ℕ
u32_at bytes i =
    u32_be (byte_at bytes i) (byte_at bytes (i + 1)) (byte_at bytes (i + 2)) (byte_at bytes (i + 3))

-- The length of the IPv4 header that the packet's own field gives.
abbrev pub ihl : List ℕ → ℕ
ihl bytes = bit_and (byte_at bytes 14) 0x0f * 4

abbrev pub ipv4_details : List ℕ → List (List ℕ)
ipv4_details bytes =
    if leb (14 + ihl bytes) (length bytes)
    then (codes "ttl " ++ decimal (byte_at bytes 22))
      ∷ (codes "id "
          ++ (decimal (u16_at bytes 18)
              ++ (codes ",offset "
                  ++ (decimal (bit_and (u16_at bytes 20) 0x1fff)
                      ++ (44 ∷ (if bit_and (byte_at bytes 20) 0x20 == 0 then [] else 43 ∷ []))))))
      ∷ []
    else []

abbrev pub net_details : Option ℕ → List ℕ → List (List ℕ)
net_details ethertype bytes =
    if is_number 0x0800 ethertype && leb 34 (length bytes)
    then ipv4_details bytes
    else (if is_number 0x86dd ethertype && leb 54 (length bytes)
        then (codes "hlim " ++ decimal (byte_at bytes 21)) ∷ []
        else [])

abbrev pub tcp_at : ℕ → List ℕ → List (List ℕ)
tcp_at tcp_start bytes =
    if leb (tcp_start + 20) (length bytes)
    then format_tcp_flags (byte_at bytes (tcp_start + 13))
      ∷ (codes "seq "
          ++ (decimal (u32_at bytes (tcp_start + 4))
              ++ (codes " ack "
                  ++ (decimal (u32_at bytes (tcp_start + 8))
                      ++ (codes " win " ++ decimal (u16_at bytes (tcp_start + 14)))))))
      ∷ []
    else []

abbrev pub tcp_details : PacketInfo → List ℕ → List (List ℕ)
tcp_details info bytes =
    if is_number 6 info.protocol && leb 34 (length bytes)
    then tcp_at (14 + (if is_number 0x0800 info.ethertype then ihl bytes else 40)) bytes
    else []

abbrev pub details_of : PacketInfo → List ℕ → List (List ℕ)
details_of info bytes =
    if leb 14 (length bytes) then net_details info.ethertype bytes ++ tcp_details info bytes else []

abbrev pub with_details : List ℕ → List (List ℕ) → List ℕ
with_details line [] = line
with_details line (d ∷ details) = line ++ (32 ∷ join 32 (d ∷ details))

module _ (args : Args) where
  abbrev pub source_text : PacketInfo → List ℕ
  source_text info = format_addr info.src_ip info.src_port (leb 1 args.no_resolve)

  abbrev pub destination_text : PacketInfo → List ℕ
  destination_text info = format_addr info.dst_ip info.dst_port (leb 1 args.no_resolve)

  abbrev pub len_text : PacketMeta → List ℕ
  len_text meta = codes "len=" ++ decimal meta.cap_len

  abbrev pub num_prefix : PktCtx → List ℕ
  num_prefix ctx = if args.packet_number then right_aligned 4 ctx.num ++ codes "  " else []

  -- The line of `-q`.
  abbrev pub quiet_line : List ℕ → PktCtx → PacketMeta → Option PacketInfo → List ℕ
  quiet_line ts ctx meta none = num_prefix ctx ++ (ts ++ (codes " [unknown] " ++ len_text meta))
  quiet_line ts ctx meta (some info) =
      num_prefix ctx
      ++ ((if is_empty ts then [] else ts ++ codes " ")
          ++ (protocol_name (or_zero info.protocol)
              ++ (32 ∷ source_text info
                  ++ (codes " > " ++ (destination_text info ++ (32 ∷ len_text meta))))))

  abbrev pub time_part : List ℕ → PktCtx → List (List ℕ)
  time_part ts ctx =
      if is_empty ts
      then (if args.packet_number then decimal ctx.num ∷ [] else [])
      else (num_prefix ctx ++ ts) ∷ []

  abbrev pub link_part : List ℕ → List (List ℕ)
  link_part bytes =
      if args.link_header && leb 14 (length bytes)
      then (format_mac (range_of 6 6 bytes)
          ++ (codes " > "
              ++ (format_mac (range_of 0 6 bytes)
                  ++ (codes " ethertype 0x"
                      ++ (hex_byte (byte_at bytes 12) ++ hex_byte (byte_at bytes 13))))))
        ∷ []
      else []

  abbrev pub info_part : List ℕ → Option PacketInfo → List ℕ
  info_part bytes none = codes "[unknown]"
  info_part bytes (some info) =
      with_details
        (source_text info
          ++ (codes " > "
              ++ (destination_text info ++ (32 ∷ protocol_name (or_zero info.protocol)))))
        (if ltb 0 args.verbose then details_of info bytes else [])

  abbrev pub full_line : List ℕ → PktCtx → Packet → Option PacketInfo → List ℕ
  full_line ts ctx packet info = join 32 (
      time_part ts ctx
      ++ (link_part packet.bytes ++ (info_part packet.bytes info ∷ len_text packet.meta ∷ [])))
