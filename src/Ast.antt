-- ===== src/Ast.antt =====
-- crates/netdump-filter/src/lib.rs: the filter's syntax tree, and the constants of
-- crates/netdump-core/src/lib.rs that the compiler uses. An `Ipv4Addr` or an `Ipv6Addr` is the
-- number whose big-endian bytes are its octets, and a MAC address the list of its six bytes.
use netdump.Base.{ℕ, ◌-◌, ◌*◌, ◌/◌, ◌%◌, ◌^◌, List}

pub data Protocol : Type 0 where
  ip ip6 tcp udp icmp icmp6 arp rarp : Protocol

pub data RelOp : Type 0 where
  eq ne gt ge lt le : RelOp

pub data Direction : Type 0 where
  any src dst : Direction

abbrev pub Ipv4Addr : Type 0
Ipv4Addr = ℕ

abbrev pub Ipv6Addr : Type 0
Ipv6Addr = ℕ

-- `addr.octets()[i]`.
abbrev pub octet_v4 : Ipv4Addr → ℕ → ℕ
octet_v4 addr i = addr / 2 ^ (8 * (3 - i)) % 0x100

abbrev pub octet_v6 : Ipv6Addr → ℕ → ℕ
octet_v6 addr i = addr / 2 ^ (8 * (15 - i)) % 0x100

pub data HostAddr : Type 0 where
  v4 : Ipv4Addr → HostAddr
  v6 : Ipv6Addr → HostAddr

-- An address with its mask.
pub data NetAddr : Type 0 where
  v4 : Ipv4Addr → Ipv4Addr → NetAddr
  v6 : Ipv6Addr → Ipv6Addr → NetAddr

pub data FilterAst : Type 0 where
  proto : Protocol → FilterAst
  host : HostAddr → Direction → FilterAst
  port : ℕ → Direction → FilterAst
  port_range : ℕ → ℕ → Direction → FilterAst
  ether_host : List ℕ → Direction → FilterAst
  net : NetAddr → Direction → FilterAst
  len : RelOp → ℕ → FilterAst
  and : FilterAst → FilterAst → FilterAst
  or : FilterAst → FilterAst → FilterAst
  not : FilterAst → FilterAst

abbrev pub ethertype_ip : ℕ
ethertype_ip = 0x0800

abbrev pub ethertype_arp : ℕ
ethertype_arp = 0x0806

abbrev pub ethertype_rarp : ℕ
ethertype_rarp = 0x8035

abbrev pub ethertype_ipv6 : ℕ
ethertype_ipv6 = 0x86dd

abbrev pub ipproto_tcp : ℕ
ipproto_tcp = 6

abbrev pub ipproto_udp : ℕ
ipproto_udp = 17

abbrev pub ipproto_icmp : ℕ
ipproto_icmp = 1

abbrev pub ipproto_icmpv6 : ℕ
ipproto_icmpv6 = 58
