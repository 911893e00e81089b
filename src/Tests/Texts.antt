-- ===== src/Tests/Texts.antt =====
-- Filter expressions: the leaves, and pairs as the grammar makes them.
use Prim.Native.String.{String}
use netdump.Base.{ℕ, ◌^◌, ◌≤◌, ◌<◌, ◌≡◌, refl, arith, Option, none, some, [], ◌∷◌, if◌then◌else◌}
use netdump.Ast.{FilterAst, Protocol, HostAddr, NetAddr, Direction}
use netdump.Compiler.{assemble}
use netdump.Compiler.Proto.{compile_proto}
use netdump.Compiler.Port.{compile_port}
use netdump.Link.Panic.{emitted}
use netdump.Parser.Text.{Parsed, ok, fail, parse_uint, str_eq}
use netdump.Parser.Leaf.{parse_mac}
use netdump.Parser.Net.{Rule, Pair, Pairs, pair, end, ◌⨾◌, AddrParser, prefix, combine_net}
use netdump.Parser.Predicate.{len_predicate}
use netdump.Parser.Build.{build_expr, parse}
use netdump.Parser.Mask.{combine_net-prefix}

parse_mac-example : parse_mac "00:1A:2b:3c:4d:ff" ≡ ok (0 ∷ 26 ∷ 43 ∷ 60 ∷ 77 ∷ 255 ∷ [])
unfolding parse_uint
parse_mac-example = refl

parse_uint-large : parse_uint 10 0xffff "65536" ≡ fail "number too large to fit in target type"
unfolding parse_uint
parse_uint-large = refl

-- A tab behind `greater`: the number is read as a relational operator.
len_predicate-tab :
    len_predicate "greater\t5" (pair Rule.number "5" end ⨾ end)
    ≡ fail "invalid relational operator: 5"
unfolding parse_uint
len_predicate-tab = refl

-- A library that reads one address of each version.
abbrev pub one_v4 : String → Option ℕ
one_v4 s = if str_eq s "10.0.0.1" then some 0x0a000001 else none

abbrev pub one_v6 : String → Option ℕ
one_v6 s = if str_eq s "::1" then some 1 else none

pub one_v4-fits : (s : String) {a : ℕ} → one_v4 s ≡ some a → a < 2 ^ 32
one_v4-fits s h = ground arith

pub one_v6-fits : (s : String) {a : ℕ} → one_v6 s ≡ some a → a < 2 ^ 128
one_v6-fits s h = ground arith

abbrev pub library : AddrParser
library = record {
  parse_v4 = one_v4;
  parse_v6 = one_v6;
  v4_fits = one_v4-fits;
  v6_fits = one_v6-fits;
}

abbrev operand : Pair → Pair
operand predicate = pair Rule.not_expr "" (pair Rule.primary "" (predicate ⨾ end) ⨾ end)

-- The pairs of `tcp dst port 80`.
abbrev web_pairs : Pairs
web_pairs =
    pair Rule.filter "" (
      pair Rule.expr "" (
        pair Rule.or_expr "" (
          pair Rule.and_expr "" (
            operand (pair Rule.predicate "" (pair Rule.proto "tcp" end ⨾ end))
            ⨾ (operand (
                  pair Rule.predicate "" (
                    pair Rule.direction "dst" end
                    ⨾ (pair Rule.port "port 80" (pair Rule.number "80" end ⨾ end) ⨾ end)))
                ⨾ end))
          ⨾ end)
        ⨾ end)
      ⨾ end)
    ⨾ end

abbrev pub web_grammar : String → Parsed Pairs
web_grammar s = ok web_pairs

abbrev pub parsed_web : FilterAst
parsed_web = FilterAst.and (FilterAst.proto Protocol.tcp) (FilterAst.port 80 Direction.dst)

pub parse-web : parse library web_grammar "tcp dst port 80" ≡ ok parsed_web
unfolding build_expr parse_uint
parse-web = refl

pub parsed_web-emitted : emitted parsed_web ≤ 257
unfolding assemble compile_port compile_proto
parsed_web-emitted = omega arith

combine_net-prefix_example :
    combine_net (HostAddr.v4 0x0a000000) (prefix 8) ≡ ok (NetAddr.v4 0x0a000000 0xff000000)
combine_net-prefix_example = combine_net-prefix (HostAddr.v4 0x0a000000) 8 (omega arith)
