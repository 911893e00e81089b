-- ===== src/Parser/Ranges.antt =====
-- Parsed addresses and networks are in the range of their types.
use Prim.Native.String.{String}
use netdump.Base.{ℕ, ◌-◌, ◌^◌, ◌<◌, ◌≡◌, refl, ltb, Option, none, some, arith}
use netdump.Ast.{HostAddr, NetAddr}
use netdump.Parser.Text.{ok, fail, shift_overflow, map_err, parse_uint}
use netdump.Parser.Net.{
  Rule, Pair, Pairs, pair, end, ◌⨾◌, as_str, AddrParser, NetMask, prefix, shifted_max, combine_net,
  parse_host_addr, parse_net, v4_or_v6, mask_of, parse_mask, netmask_value, checked_prefix,
  default_netmask,
}
use netdump.Parser.Numbers.{Gives, Gives-bind, Gives-if, Gives-any}

-- What the standard library's parsers give, and what the filter's functions make of it.
abbrev pub HostFits : HostAddr → Type 0
HostFits (HostAddr.v4 a) = a < 2 ^ 32
HostFits (HostAddr.v6 a) = a < 2 ^ 128

abbrev pub NetFits : NetAddr → Type 0
NetFits (NetAddr.v4 a m) = (a < 2 ^ 32) × (m < 2 ^ 32)
NetFits (NetAddr.v6 a m) = (a < 2 ^ 128) × (m < 2 ^ 128)

abbrev MaskFits : NetMask → Type 0
MaskFits (prefix p) = Unit
MaskFits (NetMask.v4 m) = m < 2 ^ 32
MaskFits (NetMask.v6 m) = m < 2 ^ 128

shifted_max-Fits : (w s : ℕ) → 0 < 2 ^ w → Gives (λ m. m < 2 ^ w) (shifted_max w s)
shifted_max-Fits w s h = Gives-if (λ m. m < 2 ^ w) (ltb s w) _ shift_overflow (omega arith) tt

combine_net-NetFits :
    (addr : HostAddr) (mask : NetMask)
    → HostFits addr
    → MaskFits mask
    → Gives NetFits (combine_net addr mask)
unfolding combine_net
combine_net-NetFits (HostAddr.v4 a) (prefix p) h m =
    Gives-bind (λ m. m < 2 ^ 32) NetFits (shifted_max 32 (32 - p)) _
      (shifted_max-Fits 32 (32 - p) (omega arith)) (λ mask q. (h, q))
combine_net-NetFits (HostAddr.v4 a) (NetMask.v4 mask) h m = (h, m)
combine_net-NetFits (HostAddr.v4 a) (NetMask.v6 mask) h m = tt
combine_net-NetFits (HostAddr.v6 a) (prefix p) h m =
    Gives-bind (λ m. m < 2 ^ 128) NetFits (shifted_max 128 (128 - p)) _
      (shifted_max-Fits 128 (128 - p) (omega arith)) (λ mask q. (h, q))
combine_net-NetFits (HostAddr.v6 a) (NetMask.v4 mask) h m = tt
combine_net-NetFits (HostAddr.v6 a) (NetMask.v6 mask) h m = (h, m)

default_netmask-MaskFits : (addr : HostAddr) → MaskFits (default_netmask addr)
default_netmask-MaskFits (HostAddr.v4 a) = ground arith
default_netmask-MaskFits (HostAddr.v6 a) = tt

checked_prefix-MaskFits : (addr : HostAddr) (p : ℕ) → Gives MaskFits (checked_prefix addr p)
checked_prefix-MaskFits (HostAddr.v4 a) p = Gives-if MaskFits (ltb 32 p) _ (ok (prefix p)) tt tt
checked_prefix-MaskFits (HostAddr.v6 a) p = Gives-if MaskFits (ltb 128 p) _ (ok (prefix p)) tt tt

module _ (std : AddrParser) where
  pub parse_host_addr-HostFits : (s : String) → Gives HostFits (parse_host_addr std s)
  parse_host_addr-HostFits s = go (std.parse_v4 s) (std.parse_v6 s) refl refl
    where
      go :
          (v w : Option ℕ)
          → std.parse_v4 s ≡ v
          → std.parse_v6 s ≡ w
          → Gives HostFits (v4_or_v6 std s v w)
      go (some a) w e e' = std.v4_fits s e
      go none (some a) e e' = std.v6_fits s e'
      go none none e e' = tt

  parse_mask-MaskFits : (addr : HostAddr) (s : String) → Gives MaskFits (parse_mask std addr s)
  parse_mask-MaskFits (HostAddr.v4 a) s = go (std.parse_v4 s) refl
    where
      go :
          (o : Option ℕ)
          → std.parse_v4 s ≡ o
          → Gives MaskFits (elim o [
            | some mask ↦ ok (NetMask.v4 mask)
            | none ↦ fail "invalid IPv4 mask: invalid IPv4 address syntax"
          ])
      go (some a) e = std.v4_fits s e
      go none e = tt
  parse_mask-MaskFits (HostAddr.v6 a) s = go (std.parse_v6 s) refl
    where
      go :
          (o : Option ℕ)
          → std.parse_v6 s ≡ o
          → Gives MaskFits (elim o [
            | some mask ↦ ok (NetMask.v6 mask)
            | none ↦ fail "invalid IPv6 mask: invalid IPv6 address syntax"
          ])
      go (some a) e = std.v6_fits s e
      go none e = tt

  netmask_value-MaskFits : (addr : HostAddr) (p : Pair) → Gives MaskFits (netmask_value std addr p)
  netmask_value-MaskFits addr (pair Rule.ip s ps) = parse_mask-MaskFits addr s
  netmask_value-MaskFits addr (pair Rule.number s ps) =
      Gives-bind (λ n. Unit) MaskFits (map_err "invalid prefix length: " (parse_uint 10 0xff s)) _
        (Gives-any (map_err "invalid prefix length: " (parse_uint 10 0xff s)))
        (λ n u. checked_prefix-MaskFits addr n)
  netmask_value-MaskFits addr (pair _ s ps) = tt

  mask_of-MaskFits : (addr : HostAddr) (ps : Pairs) → Gives MaskFits (mask_of std addr ps)
  mask_of-MaskFits addr end = default_netmask-MaskFits addr
  mask_of-MaskFits addr (pair r s end ⨾ ps) = tt
  mask_of-MaskFits addr (pair r s (value ⨾ qs) ⨾ ps) = netmask_value-MaskFits addr value

  pub parse_net-NetFits : (p : Pair) → Gives NetFits (parse_net std p)
  parse_net-NetFits (pair r s end) = tt
  parse_net-NetFits (pair r s (ip_pair ⨾ rest)) =
      Gives-bind HostFits NetFits (parse_host_addr std (as_str ip_pair)) _
        (parse_host_addr-HostFits (as_str ip_pair))
        λ addr h.
          Gives-bind MaskFits NetFits (mask_of std addr rest) _ (mask_of-MaskFits addr rest)
            λ mask m. combine_net-NetFits addr mask h m
