-- ===== src/Parser/Net.antt =====
-- Pairs of the grammar, and addresses and networks of crates/netdump-filter/src/lib.rs. The name of
-- a rule is left out at the end of a message.
use Prim.Native.String.{String, ◌++◌ as ◌<>◌}
use netdump.Base.{ℕ, ◌-◌, ◌*◌, ◌%◌, ◌^◌, ◌<◌, ◌≡◌, Option, none, some, ltb, if◌then◌else◌}
use netdump.Ast.{HostAddr, NetAddr, octet_v4}
use netdump.Parser.Text.{Parsed, ok, fail, shift_overflow, ◌>>=◌, map_err, parse_uint}

-- The rules of filter.pest.
pub data Rule : Type 0 where
  filter expr or_expr and_expr not_expr primary predicate direction proto host port portrange net
        netmask len_expr relop ether_host ip ipv4 ipv6 mac number or_op and_op not_op eoi :
      Rule

infixr 67 ◌⨾◌
-- A pair: its rule, its text and its inner pairs.
mutual
  pub data Pair : Type 0 where
    pair : Rule → String → Pairs → Pair

  pub data Pairs : Type 0 where
    end : Pairs
    ◌⨾◌ : Pair → Pairs → Pairs

abbrev pub as_str : Pair → String
as_str (pair _ s _) = s

abbrev pub into_inner : Pair → Pairs
into_inner (pair _ _ ps) = ps

-- The parsers of addresses in the standard library, of which the numbers' ranges are used.
pub record AddrParser : Type 0 where
  pub parse_v4 : String → Option ℕ
  pub parse_v6 : String → Option ℕ
  pub v4_fits : (s : String) {a : ℕ} → parse_v4 s ≡ some a → a < 2 ^ 32
  pub v6_fits : (s : String) {a : ℕ} → parse_v6 s ≡ some a → a < 2 ^ 128

pub data NetMask : Type 0 where
  prefix : ℕ → NetMask
  v4 : ℕ → NetMask
  v6 : ℕ → NetMask

abbrev pub default_netmask : HostAddr → NetMask
default_netmask (HostAddr.v4 addr) =
    if ltb (octet_v4 addr 0) 128
    then prefix 8
    else (if ltb (octet_v4 addr 0) 192
        then prefix 16
        else (if ltb (octet_v4 addr 0) 224 then prefix 24 else prefix 32))
default_netmask (HostAddr.v6 _) = prefix 128

-- `MAX << shift` in a type of `width` bits, whose check of the shift is on.
abbrev pub shifted_max : ℕ → ℕ → Parsed ℕ
shifted_max width shift =
    if ltb shift width then ok ((2 ^ width - 1) * 2 ^ shift % 2 ^ width) else shift_overflow

unfoldable pub combine_net : HostAddr → NetMask → Parsed NetAddr
combine_net (HostAddr.v4 addr) (prefix p) =
    shifted_max 32 (32 - p) >>= λ mask. ok (NetAddr.v4 addr mask)
combine_net (HostAddr.v4 addr) (v4 mask) = ok (NetAddr.v4 addr mask)
combine_net (HostAddr.v6 addr) (prefix p) =
    shifted_max 128 (128 - p) >>= λ mask. ok (NetAddr.v6 addr mask)
combine_net (HostAddr.v6 addr) (v6 mask) = ok (NetAddr.v6 addr mask)
combine_net _ _ = fail "IP address and mask version mismatch"

-- A prefix, when it is within the address.
abbrev pub checked_prefix : HostAddr → ℕ → Parsed NetMask
checked_prefix (HostAddr.v4 _) p =
    if ltb 32 p then fail "IPv4 prefix length must be <= 32" else ok (prefix p)
checked_prefix (HostAddr.v6 _) p =
    if ltb 128 p then fail "IPv6 prefix length must be <= 128" else ok (prefix p)

module _ (std : AddrParser) where
  abbrev pub v4_or_v6 : String → Option ℕ → Option ℕ → Parsed HostAddr
  v4_or_v6 s (some a) _ = ok (HostAddr.v4 a)
  v4_or_v6 s none (some a) = ok (HostAddr.v6 a)
  v4_or_v6 s none none = fail ("invalid IP address: " <> s)

  abbrev pub parse_host_addr : String → Parsed HostAddr
  parse_host_addr s = v4_or_v6 s (std.parse_v4 s) (std.parse_v6 s)

  abbrev pub parse_mask : HostAddr → String → Parsed NetMask
  parse_mask (HostAddr.v4 _) s = elim (std.parse_v4 s) [
    | some mask ↦ ok (v4 mask)
    | none ↦ fail "invalid IPv4 mask: invalid IPv4 address syntax"
  ]
  parse_mask (HostAddr.v6 _) s = elim (std.parse_v6 s) [
    | some mask ↦ ok (v6 mask)
    | none ↦ fail "invalid IPv6 mask: invalid IPv6 address syntax"
  ]

  abbrev pub netmask_value : HostAddr → Pair → Parsed NetMask
  netmask_value addr (pair Rule.ip s _) = parse_mask addr s
  netmask_value addr (pair Rule.number s _) =
      map_err "invalid prefix length: " (parse_uint 10 0xff s) >>= checked_prefix addr
  netmask_value _ _ = fail "unexpected netmask rule"

  abbrev pub parse_netmask : Pair → HostAddr → Parsed NetMask
  parse_netmask (pair _ _ end) addr = fail "netmask is empty"
  parse_netmask (pair _ _ (value ⨾ _)) addr = netmask_value addr value

  abbrev pub mask_of : HostAddr → Pairs → Parsed NetMask
  mask_of addr end = ok (default_netmask addr)
  mask_of addr (mask ⨾ _) = parse_netmask mask addr

  abbrev pub parse_net : Pair → Parsed NetAddr
  parse_net (pair _ _ end) = fail "net missing IP"
  parse_net (pair _ _ (ip_pair ⨾ rest)) = parse_host_addr (as_str ip_pair) >>= λ addr.
      mask_of addr rest >>= λ mask. combine_net addr mask
