-- ===== src/Meaning.antt =====
-- What a filter of crates/netdump-filter/src/lib.rs says of a packet, with no program and no
-- jumps: Boolean tests on the fields that the compiler loads. A field past the end reads as 0.
use netdump.Base.{
  ℕ, ◌+◌, ◌*◌, ◌%◌, ◌^◌, Bool, false, not as bool_not, ◌&&◌, ◌||◌, List, [], ◌∷◌, ltb, leb, ◌==◌,
  if◌then◌else◌, length, bit_and,
}
use netdump.Ast.{
  Protocol, ip, ip6, tcp, udp, icmp, icmp6, arp, rarp, RelOp, eq, ne, gt, ge, lt, le, Direction,
  any, src, dst, HostAddr, NetAddr, FilterAst, ethertype_ip, ethertype_ipv6, ethertype_arp,
  ethertype_rarp, ipproto_tcp, ipproto_udp, ipproto_icmp, ipproto_icmpv6,
}
use netdump.Compiler.Host.{ipv6_words, mac_high, mac_low}
use netdump.Vm.{read_u8, read_u16, read_u32}

-- A qualifier, over the test of the source and that of the destination.
abbrev pub sides : Direction → Bool → Bool → Bool
sides any s d = s || d
sides src s d = s
sides dst s d = d

abbrev pub port_test : ℕ → Direction → ℕ → ℕ → Bool
port_test port dir s d = sides dir (s == port) (d == port)

abbrev pub in_range : ℕ → ℕ → ℕ → Bool
in_range lo hi p = leb lo p && bool_not (ltb hi p)

-- With no qualifier a source port below the range decides against the packet.
abbrev pub range_test : ℕ → ℕ → Direction → ℕ → ℕ → Bool
range_test lo hi any s d = leb lo s && (bool_not (ltb hi s) || in_range lo hi d)
range_test lo hi src s d = in_range lo hi s
range_test lo hi dst s d = in_range lo hi d

abbrev pub compares : RelOp → ℕ → ℕ → Bool
compares eq a b = a == b
compares ne a b = bool_not (a == b)
compares gt a b = ltb b a
compares ge a b = leb b a
compares lt a b = bool_not (leb b a)
compares le a b = bool_not (ltb b a)

module _ (packet : List ℕ) where
  abbrev pub has_ethertype : ℕ → Bool
  has_ethertype e = read_u16 packet 12 == e

  abbrev pub is_ipv4 : Bool
  is_ipv4 = has_ethertype ethertype_ip

  abbrev pub is_ipv6 : Bool
  is_ipv6 = has_ethertype ethertype_ipv6

  -- One test over IPv4, and one over IPv6; neither holds of other packets.
  abbrev pub by_version : Bool → Bool → Bool
  by_version over_v4 over_v6 = if is_ipv4 then over_v4 else is_ipv6 && over_v6

  abbrev pub has_transport : ℕ → Bool
  has_transport p = by_version (read_u8 packet 23 == p) (read_u8 packet 20 == p)

  abbrev pub proto_matches : Protocol → Bool
  proto_matches ip = is_ipv4
  proto_matches ip6 = is_ipv6
  proto_matches arp = has_ethertype ethertype_arp
  proto_matches rarp = has_ethertype ethertype_rarp
  proto_matches tcp = has_transport ipproto_tcp
  proto_matches udp = has_transport ipproto_udp
  proto_matches icmp = is_ipv4 && read_u8 packet 23 == ipproto_icmp
  proto_matches icmp6 = is_ipv6 && read_u8 packet 20 == ipproto_icmpv6

  abbrev pub words_match : List ℕ → ℕ → Bool
  words_match (w₀ ∷ w₁ ∷ w₂ ∷ w₃ ∷ []) o =
      read_u32 packet (o + 0) == w₀
      && (read_u32 packet (o + 4) == w₁
          && (read_u32 packet (o + 8) == w₂ && read_u32 packet (o + 12) == w₃))
  words_match _ o = false

  abbrev pub host_matches : HostAddr → Direction → Bool
  unfolding ipv6_words
  host_matches (HostAddr.v4 a) dir =
      is_ipv4 && sides dir (read_u32 packet 26 == a) (read_u32 packet 30 == a)
  host_matches (HostAddr.v6 a) dir =
      is_ipv6 && sides dir (words_match (ipv6_words a) 22) (words_match (ipv6_words a) 38)

  abbrev pub mac_matches : List ℕ → ℕ → Bool
  mac_matches addr o = read_u32 packet o == mac_high addr && read_u16 packet (o + 4) == mac_low addr

  abbrev pub ether_matches : List ℕ → Direction → Bool
  ether_matches addr any = mac_matches addr 0 || mac_matches addr 6
  ether_matches addr src = mac_matches addr 6
  ether_matches addr dst = mac_matches addr 0

  -- The words of the packet under the mask; the address' own words are taken as they are.
  abbrev pub masked_words_match : List ℕ → List ℕ → ℕ → Bool
  masked_words_match (w₀ ∷ w₁ ∷ w₂ ∷ w₃ ∷ []) (m₀ ∷ m₁ ∷ m₂ ∷ m₃ ∷ []) o =
      bit_and (read_u32 packet (o + 0)) m₀ == w₀
      && (bit_and (read_u32 packet (o + 4)) m₁ == w₁
          && (bit_and (read_u32 packet (o + 8)) m₂ == w₂
              && bit_and (read_u32 packet (o + 12)) m₃ == w₃))
  masked_words_match _ _ o = false

  abbrev pub net_matches : NetAddr → Direction → Bool
  unfolding ipv6_words
  net_matches (NetAddr.v4 a m) dir =
      is_ipv4
      && sides dir (bit_and (read_u32 packet 26) m == bit_and a m)
          (bit_and (read_u32 packet 30) m == bit_and a m)
  net_matches (NetAddr.v6 a m) dir =
      is_ipv6
      && sides dir (masked_words_match (ipv6_words a) (ipv6_words m) 22)
          (masked_words_match (ipv6_words a) (ipv6_words m) 38)

  abbrev pub is_tcp_or_udp : ℕ → Bool
  is_tcp_or_udp o = read_u8 packet o == ipproto_tcp || read_u8 packet o == ipproto_udp

  -- The length of the IPv4 header, in bytes.
  abbrev pub header_length : ℕ
  header_length = bit_and (read_u8 packet 14) 0x0f * 4

  -- A test of the source and the destination port, where the transport header stands.
  abbrev pub on_ports : (ℕ → ℕ → Bool) → Bool
  on_ports test =
      by_version
        (is_tcp_or_udp 23
          && test (read_u16 packet (header_length + 14)) (read_u16 packet (header_length + 16)))
        (is_tcp_or_udp 20 && test (read_u16 packet 54) (read_u16 packet 56))

  unfoldable pub matches : FilterAst → Bool
  matches (FilterAst.and l r) = matches l && matches r
  matches (FilterAst.or l r) = matches l || matches r
  matches (FilterAst.not e) = bool_not (matches e)
  matches (FilterAst.proto p) = proto_matches p
  matches (FilterAst.host addr dir) = host_matches addr dir
  matches (FilterAst.port p dir) = on_ports (port_test p dir)
  matches (FilterAst.port_range lo hi dir) = on_ports (range_test lo hi dir)
  matches (FilterAst.ether_host addr dir) = ether_matches addr dir
  matches (FilterAst.net addr dir) = net_matches addr dir
  matches (FilterAst.len op n) = compares op (length packet % 2 ^ 32) n
