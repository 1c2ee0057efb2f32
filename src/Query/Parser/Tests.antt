-- ===== src/Query/Parser/Tests.antt =====
-- Runs of the parser: the examples of the source's own tests.
use funtonic.Base.{◌<◌, ◌≢◌, arith, String, ◌≡◌, refl, ok, err}
use funtonic.Query.{Query, pattern, field_pattern, wildcard, and, or, not}
use funtonic.Query.{nil, cons}
use funtonic.Query.Parser.Grammar.{parse, expression, unrecognized_input, parse_error}
use funtonic.Query.Parser.Text.{size}
use funtonic.Query.Parser.Nom.{out_of_fuel}
use funtonic.Query.Parser.Samples.{toy_nom, toy_nom-IsNom}
use funtonic.Query.Parser.Printer.{show, Printable}
use funtonic.Query.Parser.RoundTrip.{parse-show}
use funtonic.Query.Parser.Termination.{expression_total}

parse_and : parse toy_nom "foo and bar" ≡ ok (and (cons (pattern "foo") (cons (pattern "bar") nil)))
unfolding parse toy_nom
parse_and = refl

parse_empty : parse toy_nom "" ≡ err (parse_error "error")
unfolding parse toy_nom
parse_empty = refl

parse_precedence :
    parse toy_nom "foo and bar or !(baz:yak , *)"
    ≡ ok (
        or (
          cons
            (and (cons (pattern "foo") (cons (pattern "bar") nil)))
            (cons (not (or (cons (field_pattern "baz" (pattern "yak")) (cons wildcard nil)))) nil)))
unfolding parse toy_nom
parse_precedence = refl

-- A keyword is one only before a space.
parse_keyword : parse toy_nom "foo orbar" ≡ err (unrecognized_input "orbar")
unfolding parse toy_nom
parse_keyword = refl

-- `(env:"prod"&&(!"a b")&&*)`
abbrev sample : Query
sample =
    and
      (cons (field_pattern "env" (pattern "prod")) (cons (not (pattern "a b")) (cons wildcard nil)))

parse-show_example : parse toy_nom (show sample "") ≡ ok sample
unfolding Printable toy_nom
parse-show_example =
    parse-show toy_nom toy_nom-IsNom sample
      (omega arith, ((omega arith, refl, (omega arith, refl)), ((omega arith, refl), (tt, tt))))

expression_total_example :
    (expression toy_nom 10 "!a" ≢ err out_of_fuel)
    × ((rest : String) (q : Query) → expression toy_nom 10 "!a" ≡ ok (rest, q) → size rest < 2)
expression_total_example = expression_total toy_nom toy_nom-IsNom 10 "!a" (omega arith)
