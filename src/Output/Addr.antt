-- ===== src/Output/Addr.antt =====
-- `format_addr` of crates/netdump-cli/src/main.rs, with the standard library's text of an address.
use netdump.Base.{
  ℕ, zero, suc, ◌+◌, ◌-◌, ◌*◌, ◌/◌, ◌%◌, ◌^◌, Bool, Option, none, some, List, [], ◌∷◌, ◌++◌, ◌&&◌,
  ltb, ◌==◌, if◌then◌else◌,
}
use netdump.Base.Text.{codes, decimal}
use netdump.Ast.{Ipv4Addr, Ipv6Addr, octet_v4}
use netdump.Core.{IpAddr}
use netdump.Output.Hex.{hex_digit, hex_digits}
use netdump.Output.Names.{port_name}

abbrev pub show_v4 : Ipv4Addr → List ℕ
show_v4 ip =
    decimal (octet_v4 ip 0)
    ++ (46 ∷ decimal (octet_v4 ip 1)
        ++ (46 ∷ decimal (octet_v4 ip 2) ++ (46 ∷ decimal (octet_v4 ip 3))))

-- The first `n` of the eight groups of sixteen bits, from group `i` on.
abbrev groups : ℕ → ℕ → Ipv6Addr → List ℕ
groups i zero ip = []
groups i (suc n) ip = ip / 2 ^ (16 * (7 - i)) % 2 ^ 16 ∷ groups (i + 1) n ip

-- The first of the longest runs of zeros, as its start and length.
abbrev longest_run : ℕ → ℕ → ℕ × ℕ → List ℕ → ℕ × ℕ
longest_run i len best [] = best
longest_run i len (start, most) (g ∷ gs) =
    let now = if g == 0 && ltb most (len + 1) then (i - len, len + 1) else (start, most) in
    longest_run (i + 1) (if g == 0 then len + 1 else 0) now gs

abbrev hex_group : ℕ → List ℕ
hex_group g = hex_digits 3 (g / 16) ++ (hex_digit (g % 16) ∷ [])

abbrev show_groups : List ℕ → List ℕ
show_groups [] = []
show_groups (g ∷ []) = hex_group g
show_groups (g ∷ h ∷ gs) = hex_group g ++ (58 ∷ show_groups (h ∷ gs))

abbrev shortened : ℕ × ℕ → Ipv6Addr → List ℕ
shortened (start, len) ip =
    if ltb 1 len
    then show_groups (groups 0 start ip)
      ++ (58 ∷ 58 ∷ show_groups (groups (start + len) (8 - (start + len)) ip))
    else show_groups (groups 0 8 ip)

abbrev pub show_v6 : Ipv6Addr → List ℕ
show_v6 ip =
    if ip / 2 ^ 32 == 0xffff
    then codes "::ffff:" ++ show_v4 (ip % 2 ^ 32)
    else shortened (longest_run 0 0 (0, 0) (groups 0 8 ip)) ip

abbrev pub show_ip : IpAddr → List ℕ
show_ip (IpAddr.v4 ip) = show_v4 ip
show_ip (IpAddr.v6 ip) = show_v6 ip

unfoldable pub format_addr : Option IpAddr → Option ℕ → Bool → List ℕ
format_addr (some ip) (some port) numeric =
    if numeric then show_ip ip ++ (58 ∷ decimal port) else show_ip ip ++ (46 ∷ port_name port)
format_addr (some ip) none numeric = show_ip ip
format_addr none port numeric = codes "?"
