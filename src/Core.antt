-- ===== src/Core.antt =====
-- crates/netdump-core/src/lib.rs: packets, errors, and the header fields of a packet. A text is the
-- list of its characters' numbers.
use netdump.Base.{ℕ, Option, none, some, List, ◌++◌}
use netdump.Ast.{Ipv4Addr, Ipv6Addr}
use netdump.Base.Text.{codes}

-- An interface index is never negative: both callers take one from the system, or 0.
pub record PacketMeta : Type 0 where
  pub ts_sec : ℕ
  pub ts_usec : ℕ
  pub ifindex : ℕ
  pub cap_len : ℕ
  pub orig_len : ℕ

pub record Packet : Type 0 where
  pub meta : PacketMeta
  pub bytes : List ℕ

pub data NetdumpError : Type 0 where
  io parse vm unsupported : List ℕ → NetdumpError

-- `Display` of an error.
abbrev pub show_error : NetdumpError → List ℕ
show_error (NetdumpError.io s) = codes "io error: " ++ s
show_error (NetdumpError.parse s) = codes "parse error: " ++ s
show_error (NetdumpError.vm s) = codes "vm error: " ++ s
show_error (NetdumpError.unsupported s) = codes "unsupported: " ++ s

pub data IpAddr : Type 0 where
  v4 : Ipv4Addr → IpAddr
  v6 : Ipv6Addr → IpAddr

pub record PacketInfo : Type 0 where
  pub ethertype : Option ℕ
  pub protocol : Option ℕ
  pub src_ip : Option IpAddr
  pub dst_ip : Option IpAddr
  pub src_port : Option ℕ
  pub dst_port : Option ℕ

-- What the slicing of etherparse gives, as far as `parse_packet` asks: an Ethernet header's type;
-- a version of IP with its protocol and addresses, or another network layer; the ports of UDP or
-- TCP, or another transport.
pub data NetSlice : Type 0 where
  ipv4 ipv6 : ℕ → ℕ → ℕ → NetSlice
  other : NetSlice

pub data TransportSlice : Type 0 where
  udp tcp : ℕ → ℕ → TransportSlice
  other : TransportSlice

pub record SlicedPacket : Type 0 where
  pub link : Option ℕ
  pub net : Option NetSlice
  pub transport : Option TransportSlice

abbrev with_ports : Option TransportSlice → PacketInfo → PacketInfo
with_ports (some (TransportSlice.udp src dst)) info = record info {
  src_port = some src;
  dst_port = some dst;
}
with_ports (some (TransportSlice.tcp src dst)) info = record info {
  src_port = some src;
  dst_port = some dst;
}
with_ports (some TransportSlice.other) info = info
with_ports none info = info

-- `PacketInfo::default()` with the type of the frame.
abbrev linked_info : Option ℕ → PacketInfo
linked_info ethertype = record {
  ethertype = ethertype;
  protocol = none;
  src_ip = none;
  dst_ip = none;
  src_port = none;
  dst_port = none;
}

abbrev with_net : Option NetSlice → PacketInfo → Option PacketInfo
with_net none info = none
with_net (some (NetSlice.ipv4 protocol src dst)) info = some (record info {
  protocol = some protocol;
  src_ip = some (IpAddr.v4 src);
  dst_ip = some (IpAddr.v4 dst);
})
with_net (some (NetSlice.ipv6 protocol src dst)) info = some (record info {
  protocol = some protocol;
  src_ip = some (IpAddr.v6 src);
  dst_ip = some (IpAddr.v6 dst);
})
with_net (some NetSlice.other) info = none

abbrev info_of : SlicedPacket → Option PacketInfo
info_of sliced = elim (with_net sliced.net (linked_info sliced.link)) [
  | none ↦ none
  | some info ↦ some (with_ports sliced.transport info)
]

-- `slice` is `SlicedPacket::from_ethernet`, which fails on a packet that it cannot read.
abbrev pub parse_packet : (slice : List ℕ → Option SlicedPacket) → List ℕ → Option PacketInfo
parse_packet slice packet = elim (slice packet) [ none ↦ none | some sliced ↦ info_of sliced ]
