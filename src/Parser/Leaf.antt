-- ===== src/Parser/Leaf.antt =====
-- The leaves of a filter expression: `parse_direction`, `parse_proto`, `parse_relop`, `parse_mac`
-- and the numbers of crates/netdump-filter/src/lib.rs.
use Prim.Native.String.{String, ◌++◌ as ◌<>◌}
use netdump.Base.{ℕ, suc, ◌||◌, List, [], ◌∷◌, set, leb, if◌then◌else◌}
use netdump.Ast.{FilterAst, Protocol, RelOp, Direction}
use netdump.Parser.Text.{
  Parsed, ok, fail, ◌>>=◌, map_err, eq_ignore_ascii_case, str_eq, parse_uint, split_colon,
}

abbrev pub parse_direction : String → Parsed Direction
parse_direction s =
    if eq_ignore_ascii_case s "src"
    then ok Direction.src
    else (if eq_ignore_ascii_case s "dst"
        then ok Direction.dst
        else fail ("invalid direction: " <> s))

abbrev pub parse_proto : String → Parsed FilterAst
parse_proto s =
    if eq_ignore_ascii_case s "ip"
    then ok (FilterAst.proto Protocol.ip)
    else (if eq_ignore_ascii_case s "ip6"
        then ok (FilterAst.proto Protocol.ip6)
        else (if eq_ignore_ascii_case s "tcp"
            then ok (FilterAst.proto Protocol.tcp)
            else (if eq_ignore_ascii_case s "udp"
                then ok (FilterAst.proto Protocol.udp)
                else (if eq_ignore_ascii_case s "icmp"
                    then ok (FilterAst.proto Protocol.icmp)
                    else (if eq_ignore_ascii_case s "icmp6"
                        then ok (FilterAst.proto Protocol.icmp6)
                        else (if eq_ignore_ascii_case s "arp"
                            then ok (FilterAst.proto Protocol.arp)
                            else (if eq_ignore_ascii_case s "rarp"
                                then ok (FilterAst.proto Protocol.rarp)
                                else fail ("invalid protocol: " <> s))))))))

abbrev pub parse_relop : String → Parsed RelOp
parse_relop s =
    if str_eq s "=" || str_eq s "=="
    then ok RelOp.eq
    else (if str_eq s "!="
        then ok RelOp.ne
        else (if str_eq s ">"
            then ok RelOp.gt
            else (if str_eq s ">="
                then ok RelOp.ge
                else (if str_eq s "<"
                    then ok RelOp.lt
                    else (if str_eq s "<="
                        then ok RelOp.le
                        else fail ("invalid relational operator: " <> s))))))

abbrev pub parse_number : String → Parsed ℕ
parse_number s = map_err "invalid number: " (parse_uint 10 0xffff s)

abbrev pub parse_number_u32 : String → Parsed ℕ
parse_number_u32 s = map_err "invalid number: " (parse_uint 10 0xffff_ffff s)

-- The loop of `parse_mac`, from part `i` on.
abbrev pub mac_loop : ℕ → List ℕ → List String → Parsed (List ℕ)
mac_loop i octets [] = ok octets
mac_loop i octets (part ∷ parts) =
    if leb 6 i
    then fail "MAC address exceeds 6 bytes"
    else map_err "invalid MAC: " (parse_uint 16 0xff part) >>= λ octet.
        mac_loop (suc i) (set octets i octet) parts

abbrev pub parse_mac : String → Parsed (List ℕ)
parse_mac s = mac_loop 0 (0 ∷ 0 ∷ 0 ∷ 0 ∷ 0 ∷ 0 ∷ []) (split_colon s)
