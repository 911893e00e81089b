-- ===== src/Parser/Build.antt =====
-- `parse` and `build_expr` to `build_primary` of crates/netdump-filter/src/lib.rs, on the pairs
-- that the grammar's parser makes.
use Prim.Native.String.{String}
use netdump.Base.{Bool, true, false, if◌then◌else◌}
use netdump.Ast.{FilterAst}
use netdump.Parser.Text.{Parsed, ok, fail, ◌>>=◌}
use netdump.Parser.Net.{Rule, Pair, Pairs, pair, end, ◌⨾◌, AddrParser, into_inner}
use netdump.Parser.Predicate.{build_predicate}

abbrev pub is_or_op : Pair → Bool
is_or_op (pair Rule.or_op _ _) = true
is_or_op _ = false

abbrev pub is_and_op : Pair → Bool
is_and_op (pair Rule.and_op _ _) = true
is_and_op _ = false

abbrev pub is_not_op : Pair → Bool
is_not_op (pair Rule.not_op _ _) = true
is_not_op _ = false

abbrev pub is_expr : Pair → Bool
is_expr (pair Rule.expr _ _) = true
is_expr _ = false

abbrev pub is_predicate : Pair → Bool
is_predicate (pair Rule.predicate _ _) = true
is_predicate _ = false

module _ (std : AddrParser) where
  unfoldable mutual
    pub build_expr : Pair → Parsed FilterAst
    build_expr (pair _ _ end) = fail "empty expression"
    build_expr (pair _ _ (or_expr ⨾ _)) = build_or or_expr

    pub build_or : Pair → Parsed FilterAst
    build_or (pair _ _ end) = fail "empty operand in OR expression"
    build_or (pair _ _ (p ⨾ ps)) = build_and p >>= λ left. or_loop left ps

    -- The loop of `build_or`, and its operand behind an operator.
    pub or_loop : FilterAst → Pairs → Parsed FilterAst
    or_loop left end = ok left
    or_loop left (op ⨾ ps) = if is_or_op op then or_right left ps else ok left

    pub or_right : FilterAst → Pairs → Parsed FilterAst
    or_right left end = fail "missing right operand in OR"
    or_right left (p ⨾ ps) = build_and p >>= λ right. or_loop (FilterAst.or left right) ps

    pub build_and : Pair → Parsed FilterAst
    build_and (pair _ _ end) = fail "empty operand in AND expression"
    build_and (pair _ _ (p ⨾ ps)) = build_not p >>= λ left. and_loop left ps

    -- The loop of `build_and`, whose operator may be left out.
    pub and_loop : FilterAst → Pairs → Parsed FilterAst
    and_loop left end = ok left
    and_loop left (p ⨾ ps) =
        if is_and_op p
        then and_right left ps
        else build_not p >>= λ right. and_loop (FilterAst.and left right) ps

    pub and_right : FilterAst → Pairs → Parsed FilterAst
    and_right left end = fail "missing right operand in AND"
    and_right left (p ⨾ ps) = build_not p >>= λ right. and_loop (FilterAst.and left right) ps

    pub build_not : Pair → Parsed FilterAst
    build_not (pair _ _ end) = fail "empty expression"
    build_not (pair _ _ (p ⨾ ps)) = if is_not_op p then negated ps else build_primary p

    pub negated : Pairs → Parsed FilterAst
    negated end = fail "expression expected after 'not'"
    negated (primary ⨾ _) = build_primary primary >>= λ e. ok (FilterAst.not e)

    pub build_primary : Pair → Parsed FilterAst
    build_primary (pair _ _ end) = fail "empty primary expression"
    build_primary (pair _ _ (child ⨾ _)) =
        if is_predicate child
        then build_predicate std child
        else (if is_expr child then build_expr child else fail "unexpected rule")

  -- The first expression among the inner pairs of the filter.
  abbrev pub first_expr : Pairs → Parsed FilterAst
  first_expr end = fail "no filter expression found"
  first_expr (p ⨾ ps) = if is_expr p then build_expr p else first_expr ps

  abbrev pub first_filter : Pairs → Parsed FilterAst
  first_filter end = fail "no filter expression found"
  first_filter (filter ⨾ _) = first_expr (into_inner filter)

  -- `grammar` is the parser that filter.pest generates.
  abbrev pub parse : (grammar : String → Parsed Pairs) → String → Parsed FilterAst
  parse grammar input = grammar input >>= first_filter
