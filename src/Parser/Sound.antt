-- ===== src/Parser/Sound.antt =====
-- The numbers of a parsed filter are in the range of their types, and a parsed filter compiles to a
-- program that decides it.
use Prim.Native.String.{String}
use netdump.Base.{◌||◌, ℕ, ◌≤◌, ltb, arith}
use netdump.Ast.{FilterAst, HostAddr, NetAddr, Direction, RelOp}
use netdump.Link.Fit.{IsFilter}
use netdump.Parser.Text.{
  Parsed, ok, fail, ◌>>=◌, map_err, eq_ignore_ascii_case, lower_starts_with, parse_uint,
  split_colon,
}
use netdump.Parser.Leaf.{parse_direction, parse_proto, parse_relop, parse_mac}
use netdump.Parser.Net.{
  Rule, Pair, Pairs, pair, end, ◌⨾◌, as_str, AddrParser, parse_host_addr, parse_net,
}
use netdump.Parser.Predicate.{
  build_predicate, kind_predicate, qualified_predicate, host_predicate, port_predicate,
  range_predicate, len_predicate, len_value, relop_predicate, ether_predicate, ether_rest,
  mac_predicate, is_direction,
}
use netdump.Parser.Numbers.{
  Gives, Gives-bind, Gives-if, Gives-map_err, Gives-any, parse_uint-Below, IsMac, mac_loop-IsMac,
}
use netdump.Parser.Ranges.{HostFits, NetFits, parse_host_addr-HostFits, parse_net-NetFits}

-- A filter in the range of its types, where one is parsed.
abbrev Fine : Parsed FilterAst → Type 0
Fine = Gives IsFilter

number-IsFilter :
    (radix max : ℕ) (message s : String) (k : ℕ → Parsed FilterAst)
    → ((n : ℕ) → n ≤ max → Fine (k n))
    → Fine (map_err message (parse_uint radix max s) >>= k)
number-IsFilter radix max message s k h =
    Gives-bind (λ n. n ≤ max) IsFilter (map_err message (parse_uint radix max s)) k
      (Gives-map_err (λ n. n ≤ max) message _ (parse_uint-Below radix max s)) h

parse_proto-IsFilter : (s : String) → Fine (parse_proto s)
parse_proto-IsFilter s = ground arith

port_predicate-IsFilter : (dir : Direction) (ps : Pairs) → Fine (port_predicate dir ps)
port_predicate-IsFilter dir end = tt
port_predicate-IsFilter dir (p ⨾ ps) =
    number-IsFilter 10 0xffff "invalid port: " (as_str p) _ λ n h. omega arith

range_predicate-IsFilter : (dir : Direction) (ps : Pairs) → Fine (range_predicate dir ps)
range_predicate-IsFilter dir end = tt
range_predicate-IsFilter dir (p ⨾ end) =
    number-IsFilter 10 0xffff "invalid number: " (as_str p) _ λ n h. tt
range_predicate-IsFilter dir (p ⨾ (q ⨾ ps)) =
    number-IsFilter 10 0xffff "invalid number: " (as_str p) _ λ n h.
      number-IsFilter 10 0xffff "invalid number: " (as_str q) _ λ m g.
        Gives-if IsFilter (ltb m n) (fail "portrange start port is greater than end port")
          (ok (FilterAst.port_range n m dir)) tt (omega arith)

len_value-IsFilter : (op : RelOp) (missing : String) (ps : Pairs) → Fine (len_value op missing ps)
len_value-IsFilter op missing end = tt
len_value-IsFilter op missing (p ⨾ ps) =
    number-IsFilter 10 0xffff_ffff "invalid number: " (as_str p) _ λ n h. omega arith

relop_predicate-IsFilter : (ps : Pairs) → Fine (relop_predicate ps)
relop_predicate-IsFilter end = tt
relop_predicate-IsFilter (p ⨾ ps) =
    Gives-bind (λ op. Unit) IsFilter (parse_relop (as_str p)) _ (Gives-any (parse_relop (as_str p)))
      λ op u. len_value-IsFilter op "len missing value" ps

len_predicate-IsFilter : (text : String) (ps : Pairs) → Fine (len_predicate text ps)
len_predicate-IsFilter text ps =
    Gives-if IsFilter (eq_ignore_ascii_case text "greater" || lower_starts_with text "greater ") _ _
      (len_value-IsFilter RelOp.gt "greater missing value" ps)
      (Gives-if IsFilter (eq_ignore_ascii_case text "less" || lower_starts_with text "less ") _ _
        (len_value-IsFilter RelOp.lt "less missing value" ps) (relop_predicate-IsFilter ps))

mac_predicate-IsFilter : (dir : Direction) (p : Pair) → Fine (mac_predicate dir p)
mac_predicate-IsFilter dir p =
    Gives-bind IsMac IsFilter (parse_mac (as_str p)) _
      (mac_loop-IsMac 0 _ (split_colon (as_str p)) (omega arith)) (λ addr m. m)

ether_rest-IsFilter : (dir : Direction) (ps : Pairs) → Fine (ether_rest dir ps)
ether_rest-IsFilter dir end = tt
ether_rest-IsFilter dir (p ⨾ ps) = mac_predicate-IsFilter dir p

directed-IsFilter :
    (s : String) (k : Direction → Parsed FilterAst)
    → ((dir : Direction) → Fine (k dir))
    → Fine (parse_direction s >>= k)
directed-IsFilter s k h =
    Gives-bind (λ dir. Unit) IsFilter (parse_direction s) k (Gives-any (parse_direction s))
      λ dir u. h dir

ether_predicate-IsFilter : (ps : Pairs) → Fine (ether_predicate ps)
ether_predicate-IsFilter end = tt
ether_predicate-IsFilter (p ⨾ ps) =
    Gives-if IsFilter (is_direction p) _ _
      (directed-IsFilter (as_str p) (λ dir. ether_rest dir ps) (λ dir. ether_rest-IsFilter dir ps))
      (mac_predicate-IsFilter Direction.any p)

module _ (std : AddrParser) where
  host_predicate-IsFilter : (dir : Direction) (ps : Pairs) → Fine (host_predicate std dir ps)
  host_predicate-IsFilter dir end = tt
  host_predicate-IsFilter dir (p ⨾ ps) =
      Gives-bind HostFits IsFilter (parse_host_addr std (as_str p)) _
        (parse_host_addr-HostFits std (as_str p)) (λ addr h. host_fine addr h)
    where
      host_fine : (addr : HostAddr) → HostFits addr → IsFilter (FilterAst.host addr dir)
      host_fine (HostAddr.v4 a) h = h
      host_fine (HostAddr.v6 a) h = h

  net_predicate-IsFilter :
      (dir : Direction) (p : Pair) → Fine (parse_net std p >>= λ net. ok (FilterAst.net net dir))
  net_predicate-IsFilter dir p =
      Gives-bind NetFits IsFilter (parse_net std p) _ (parse_net-NetFits std p)
        (λ net h. net_fine net h)
    where
      net_fine : (net : NetAddr) → NetFits net → IsFilter (FilterAst.net net dir)
      net_fine (NetAddr.v4 a m) h = h
      net_fine (NetAddr.v6 a m) h = h

  kind_predicate-IsFilter : (dir : Direction) (p : Pair) → Fine (kind_predicate std dir p)
  kind_predicate-IsFilter dir (pair Rule.proto s ps) = parse_proto-IsFilter s
  kind_predicate-IsFilter dir (pair Rule.host s ps) = host_predicate-IsFilter dir ps
  kind_predicate-IsFilter dir (pair Rule.port s ps) = port_predicate-IsFilter dir ps
  kind_predicate-IsFilter dir (pair Rule.portrange s ps) = range_predicate-IsFilter dir ps
  kind_predicate-IsFilter dir (pair Rule.net s ps) = net_predicate-IsFilter dir (pair Rule.net s ps)
  kind_predicate-IsFilter dir (pair Rule.len_expr s ps) = len_predicate-IsFilter s ps
  kind_predicate-IsFilter dir (pair Rule.ether_host s ps) = ether_predicate-IsFilter ps
  kind_predicate-IsFilter dir (pair _ s ps) = tt

  qualified_predicate-IsFilter :
      (dir : Direction) (ps : Pairs) → Fine (qualified_predicate std dir ps)
  qualified_predicate-IsFilter dir end = tt
  qualified_predicate-IsFilter dir (p ⨾ ps) = kind_predicate-IsFilter dir p

  pub build_predicate-IsFilter : (p : Pair) → Gives IsFilter (build_predicate std p)
  build_predicate-IsFilter (pair r s end) = tt
  build_predicate-IsFilter (pair r s (p ⨾ ps)) =
      Gives-if IsFilter (is_direction p) _ _
        (directed-IsFilter (as_str p) (λ dir. qualified_predicate std dir ps)
          (λ dir. qualified_predicate-IsFilter dir ps))
        (kind_predicate-IsFilter Direction.any p)
