-- ===== src/Parser/Filters.antt =====
-- A parsed filter is in the range of its types, and compiles to a program that decides it.
use Prim.Native.String.{String}
use netdump.Base.{ℕ, ◌≤◌, ◌≡◌, subst, some, List, if◌then◌else◌}
use netdump.Bpf.{Instruction}
use netdump.Ast.{FilterAst}
use netdump.Assembler.{Result}
use netdump.Compiler.{compile}
use netdump.Vm.{exec}
use netdump.Link.Panic.{emitted}
use netdump.Link.Fit.{IsFilter}
use netdump.Meaning.{matches}
use netdump.Correct.Compile.{compile-decides}
use netdump.Parser.Text.{Parsed, ok, fail, ◌>>=◌}
use netdump.Parser.Net.{Pair, Pairs, pair, end, ◌⨾◌, into_inner, AddrParser}
use netdump.Parser.Predicate.{build_predicate}
use netdump.Parser.Build.{
  build_expr, build_or, build_and, build_not, build_primary, or_loop, or_right, and_loop, and_right,
  negated, first_expr, first_filter, parse, is_or_op, is_and_op, is_not_op, is_expr, is_predicate,
}
use netdump.Parser.Numbers.{Gives, Gives-bind, Gives-if, Gives-any}
use netdump.Parser.Sound.{build_predicate-IsFilter}

abbrev Fine : Parsed FilterAst → Type 0
Fine = Gives IsFilter

module _ (std : AddrParser) where
  mutual
    unfolding build_expr

    build_expr-IsFilter : (p : Pair) → Fine (build_expr std p)
    build_expr-IsFilter (pair r s end) = tt
    build_expr-IsFilter (pair r s (p ⨾ ps)) = build_or-IsFilter p

    build_or-IsFilter : (p : Pair) → Fine (build_or std p)
    build_or-IsFilter (pair r s end) = tt
    build_or-IsFilter (pair r s (p ⨾ ps)) =
        Gives-bind IsFilter IsFilter (build_and std p) (λ left. or_loop std left ps)
          (build_and-IsFilter p) (λ left h. or_loop-IsFilter left ps h)

    or_loop-IsFilter : (left : FilterAst) (ps : Pairs) → IsFilter left → Fine (or_loop std left ps)
    or_loop-IsFilter left end h = h
    or_loop-IsFilter left (op ⨾ ps) h =
        Gives-if IsFilter (is_or_op op) (or_right std left ps) (ok left)
          (or_right-IsFilter left ps h) h

    or_right-IsFilter :
        (left : FilterAst) (ps : Pairs) → IsFilter left → Fine (or_right std left ps)
    or_right-IsFilter left end h = tt
    or_right-IsFilter left (p ⨾ ps) h =
        Gives-bind IsFilter IsFilter (build_and std p)
          (λ right. or_loop std (FilterAst.or left right) ps) (build_and-IsFilter p)
          (λ right g. or_loop-IsFilter (FilterAst.or left right) ps (h, g))

    build_and-IsFilter : (p : Pair) → Fine (build_and std p)
    build_and-IsFilter (pair r s end) = tt
    build_and-IsFilter (pair r s (p ⨾ ps)) =
        Gives-bind IsFilter IsFilter (build_not std p) (λ left. and_loop std left ps)
          (build_not-IsFilter p) (λ left h. and_loop-IsFilter left ps h)

    and_loop-IsFilter :
        (left : FilterAst) (ps : Pairs) → IsFilter left → Fine (and_loop std left ps)
    and_loop-IsFilter left end h = h
    and_loop-IsFilter left (p ⨾ ps) h =
        Gives-if IsFilter (is_and_op p) (and_right std left ps)
          (build_not std p >>= λ right. and_loop std (FilterAst.and left right) ps)
          (and_right-IsFilter left ps h)
          (Gives-bind IsFilter IsFilter (build_not std p)
            (λ right. and_loop std (FilterAst.and left right) ps) (build_not-IsFilter p)
            (λ right g. and_loop-IsFilter (FilterAst.and left right) ps (h, g)))

    and_right-IsFilter :
        (left : FilterAst) (ps : Pairs) → IsFilter left → Fine (and_right std left ps)
    and_right-IsFilter left end h = tt
    and_right-IsFilter left (p ⨾ ps) h =
        Gives-bind IsFilter IsFilter (build_not std p)
          (λ right. and_loop std (FilterAst.and left right) ps) (build_not-IsFilter p)
          (λ right g. and_loop-IsFilter (FilterAst.and left right) ps (h, g))

    build_not-IsFilter : (p : Pair) → Fine (build_not std p)
    build_not-IsFilter (pair r s end) = tt
    build_not-IsFilter (pair r s (p ⨾ ps)) =
        Gives-if IsFilter (is_not_op p) (negated std ps) (build_primary std p) (negated-IsFilter ps)
          (build_primary-IsFilter p)

    negated-IsFilter : (ps : Pairs) → Fine (negated std ps)
    negated-IsFilter end = tt
    negated-IsFilter (p ⨾ ps) =
        Gives-bind IsFilter IsFilter (build_primary std p) (λ e. ok (FilterAst.not e))
          (build_primary-IsFilter p) (λ e h. h)

    build_primary-IsFilter : (p : Pair) → Fine (build_primary std p)
    build_primary-IsFilter (pair r s end) = tt
    build_primary-IsFilter (pair r s (p ⨾ ps)) =
        Gives-if IsFilter (is_predicate p) (build_predicate std p)
          (if is_expr p then build_expr std p else fail "unexpected rule")
          (build_predicate-IsFilter std p)
          (Gives-if IsFilter (is_expr p) (build_expr std p) (fail "unexpected rule")
            (build_expr-IsFilter p) tt)

  first_expr-IsFilter : (ps : Pairs) → Fine (first_expr std ps)
  first_expr-IsFilter end = tt
  first_expr-IsFilter (p ⨾ ps) =
      Gives-if IsFilter (is_expr p) (build_expr std p) (first_expr std ps) (build_expr-IsFilter p)
        (first_expr-IsFilter ps)

  parse-Gives : (grammar : String → Parsed Pairs) (s : String) → Fine (parse std grammar s)
  parse-Gives grammar s =
      Gives-bind (λ ps. Unit) IsFilter (grammar s) (first_filter std) (Gives-any (grammar s))
        (λ ps u. first ps)
    where
      first : (ps : Pairs) → Fine (first_filter std ps)
      first end = tt
      first (p ⨾ ps) = first_expr-IsFilter (into_inner p)

  -- The numbers of a parsed filter are in the range of their types, whatever pairs the grammar's
  -- parser makes.
  pub parse-IsFilter :
      (grammar : String → Parsed Pairs) (s : String) {ast : FilterAst}
      → parse std grammar s ≡ ok ast
      → IsFilter ast
  parse-IsFilter grammar s h = subst Fine h (parse-Gives grammar s)

  -- From a text to the decision: a filter that parses, of at most 257 instructions, compiles to a
  -- program that decides it on every packet.
  pub parse-decides :
      (grammar : String → Parsed Pairs) (s : String) {ast : FilterAst}
      → parse std grammar s ≡ ok ast
      → emitted ast ≤ 257
      → (prog : List Instruction) × (compile ast ≡ Result.ok prog)
        × ((packet : List ℕ) → exec prog packet ≡ some (matches packet ast))
  parse-decides grammar s {ast} h size = compile-decides ast (parse-IsFilter grammar s h) size
