-- ===== src/Parser/Predicate.antt =====
-- `build_predicate` of crates/netdump-filter/src/lib.rs, one function for each kind of predicate.
use Prim.Native.String.{String}
use netdump.Base.{Bool, true, false, ◌||◌, ltb, if◌then◌else◌}
use netdump.Ast.{FilterAst, Direction, RelOp}
use netdump.Parser.Text.{
  Parsed, ok, fail, ◌>>=◌, map_err, eq_ignore_ascii_case, lower_starts_with, parse_uint,
}
use netdump.Parser.Leaf.{
  parse_direction, parse_proto, parse_relop, parse_mac, parse_number, parse_number_u32,
}
use netdump.Parser.Net.{
  Rule, Pair, Pairs, pair, end, ◌⨾◌, as_str, AddrParser, parse_host_addr, parse_net,
}

abbrev pub port_predicate : Direction → Pairs → Parsed FilterAst
port_predicate dir end = fail "port missing number"
port_predicate dir (num_pair ⨾ _) =
    map_err "invalid port: " (parse_uint 10 0xffff (as_str num_pair)) >>= λ port.
    ok (FilterAst.port port dir)

abbrev pub range_predicate : Direction → Pairs → Parsed FilterAst
range_predicate dir end = fail "portrange missing start port"
range_predicate dir (first ⨾ end) =
    parse_number (as_str first) >>= λ start. fail "portrange missing end port"
range_predicate dir (first ⨾ (second ⨾ _)) = parse_number (as_str first) >>= λ start.
    parse_number (as_str second) >>= λ stop.
    if ltb stop start
    then fail "portrange start port is greater than end port"
    else ok (FilterAst.port_range start stop dir)

-- The value behind `greater`, `less` or a relational operator.
abbrev pub len_value : RelOp → String → Pairs → Parsed FilterAst
len_value op missing end = fail missing
len_value op missing (value ⨾ _) =
    parse_number_u32 (as_str value) >>= λ len. ok (FilterAst.len op len)

abbrev pub relop_predicate : Pairs → Parsed FilterAst
relop_predicate end = fail "len missing relational operator"
relop_predicate (relop_pair ⨾ rest) =
    parse_relop (as_str relop_pair) >>= λ op. len_value op "len missing value" rest

abbrev pub len_predicate : String → Pairs → Parsed FilterAst
len_predicate text inner =
    if eq_ignore_ascii_case text "greater" || lower_starts_with text "greater "
    then len_value RelOp.gt "greater missing value" inner
    else (if eq_ignore_ascii_case text "less" || lower_starts_with text "less "
        then len_value RelOp.lt "less missing value" inner
        else relop_predicate inner)

abbrev pub is_direction : Pair → Bool
is_direction (pair Rule.direction _ _) = true
is_direction _ = false

abbrev pub mac_predicate : Direction → Pair → Parsed FilterAst
mac_predicate dir mac_pair =
    parse_mac (as_str mac_pair) >>= λ addr. ok (FilterAst.ether_host addr dir)

abbrev pub ether_rest : Direction → Pairs → Parsed FilterAst
ether_rest dir end = fail "ether host missing MAC"
ether_rest dir (mac ⨾ _) = mac_predicate dir mac

abbrev pub ether_predicate : Pairs → Parsed FilterAst
ether_predicate end = fail "ether host is empty"
ether_predicate (first ⨾ rest) =
    if is_direction first
    then (parse_direction (as_str first) >>= λ dir. ether_rest dir rest)
    else mac_predicate Direction.any first

module _ (std : AddrParser) where
  abbrev pub host_predicate : Direction → Pairs → Parsed FilterAst
  host_predicate dir end = fail "host missing address"
  host_predicate dir (ip_pair ⨾ _) =
      parse_host_addr std (as_str ip_pair) >>= λ addr. ok (FilterAst.host addr dir)

  abbrev pub kind_predicate : Direction → Pair → Parsed FilterAst
  kind_predicate dir (pair Rule.proto s _) = parse_proto s
  kind_predicate dir (pair Rule.host _ ps) = host_predicate dir ps
  kind_predicate dir (pair Rule.port _ ps) = port_predicate dir ps
  kind_predicate dir (pair Rule.portrange _ ps) = range_predicate dir ps
  kind_predicate dir (pair Rule.net s ps) =
      parse_net std (pair Rule.net s ps) >>= λ net. ok (FilterAst.net net dir)
  kind_predicate dir (pair Rule.len_expr s ps) = len_predicate s ps
  kind_predicate dir (pair Rule.ether_host _ ps) = ether_predicate ps
  kind_predicate dir _ = fail "unexpected predicate type"

  abbrev pub qualified_predicate : Direction → Pairs → Parsed FilterAst
  qualified_predicate dir end = fail "predicate missing qualifier"
  qualified_predicate dir (kind ⨾ _) = kind_predicate dir kind

  abbrev pub build_predicate : Pair → Parsed FilterAst
  build_predicate (pair _ _ end) = fail "empty predicate"
  build_predicate (pair _ _ (first ⨾ rest)) =
      if is_direction first
      then (parse_direction (as_str first) >>= λ dir. qualified_predicate dir rest)
      else kind_predicate Direction.any first
