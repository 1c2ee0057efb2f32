-- ===== src/Query/Parser/Grammar.antt =====
-- The grammar of query-parser/src/parser.rs and `parse` of query-parser/src/lib.rs. Each parser takes
-- those that stand below it in the recursion as arguments, and the knot is tied on fuel.
use Prim.Native.Char.{Char, code}
use Prim.Native.String.{◌++◌}
use funtonic.Base.{ℕ, zero, suc, ◌+◌, ◌*◌, ◌%◌, String, Bool, ◌||◌, List, [], ◌∷◌, Result, ok, err}
use funtonic.Query.{Query, Queries}
use funtonic.Query.Parser.Text.{size, contains}
use funtonic.Query.Parser.Nom.{Nom, Parser, out_of_fuel}

pub data QueryParseError : Type 0 where
  parse_error unrecognized_input : String → QueryParseError

-- `Display`
unfoldable pub display : QueryParseError → String
display (parse_error e) = "Unable to parse query " ++ e
display (unrecognized_input rest) = "Unable to parse query " ++ rest

-- `Vec<Query>`
unfoldable pub queries : List Query → Queries
queries [] = Queries.nil
queries (q ∷ qs) = Queries.cons q (queries qs)

-- One clause stands for itself; `separated_list1` gives no empty list.
unfoldable pub and_of : List Query → Query
unfolding queries
and_of (q ∷ []) = q
and_of qs = Query.and (queries qs)

unfoldable pub or_of : List Query → Query
unfolding queries
or_of (q ∷ []) = q
or_of qs = Query.or (queries qs)

unfoldable pub complete_input : String → Query → Result Query QueryParseError
complete_input String.[] q = ok q
complete_input (String.◌∷◌ c rest) q = err (unrecognized_input (String.◌∷◌ c rest))

module _ (N : Nom) where
  unfoldable pub field_char : Char → Bool
  unfolding contains
  field_char c = N.is_alphanumeric (code c % 256) || contains "-_@#." c

  unfoldable pub or_separator : Parser N.E String
  or_separator =
      N.alt (N.terminated (N.tag_no_case "or") N.multispace1)
        (N.terminated (N.alt (N.tag "||") (N.tag ",")) N.multispace0)

  unfoldable pub and_separator : Parser N.E String
  and_separator =
      N.alt (N.terminated (N.tag_no_case "and") N.multispace1)
        (N.terminated (N.tag "&&") N.multispace0)

  unfoldable pub not_tags : Parser N.E String
  not_tags = N.alt (N.tag_no_case "not") (N.tag "!")

  unfoldable pub field_name : Parser N.E String
  unfolding field_char
  field_name = N.take_while1 field_char

  unfoldable pub word : Parser N.E String
  word = N.terminated (N.is_not " ():,&|") N.multispace0

  unfoldable pub quoted : Parser N.E String
  quoted = N.terminated (N.delimited (N.char "\"") (N.is_not "\"") (N.char "\"")) N.multispace0

  unfoldable pub wildcard : Parser N.E Query
  wildcard = N.map (N.terminated (N.char "*") N.multispace0) (λ _. Query.wildcard)

  unfoldable pub field_text : Parser N.E Query → Parser N.E Query
  unfolding field_name
  field_text factor =
      N.map (N.separated_pair (field_name) (N.char ":") factor)
        (λ (field, q). Query.field_pattern field q)

  unfoldable pub query : Parser N.E Query → Parser N.E Query
  unfolding wildcard field_text quoted word
  query factor =
      N.alt wildcard
        (N.alt (field_text factor) (N.alt (N.map quoted Query.pattern) (N.map word Query.pattern)))

  unfoldable pub parens : Parser N.E Query → Parser N.E Query
  parens expression =
      N.delimited (N.terminated (N.char "(") N.multispace0) expression
        (N.terminated (N.char ")") N.multispace0)

  unfoldable pub not_factor : Parser N.E Query → Parser N.E Query → Parser N.E Query
  unfolding not_tags
  not_factor factor in_parens =
      N.alt (N.map (N.preceded (N.terminated (N.tag_no_case "not") N.multispace1) factor) Query.not)
        (N.alt (N.map (N.preceded (N.terminated (N.tag "!") N.multispace0) factor) Query.not)
          (N.alt (N.map (N.preceded not_tags in_parens) Query.not) factor))

  unfoldable pub conjunction : Parser N.E Query → Parser N.E Query
  unfolding and_separator and_of
  conjunction clause = N.map (N.separated_list1 and_separator clause) and_of

  unfoldable pub term : Parser N.E Query → Parser N.E Query
  unfolding conjunction
  term clause = N.alt (conjunction clause) clause

  unfoldable pub disjunction : Parser N.E Query → Parser N.E Query
  unfolding or_separator term or_of
  disjunction clause = N.map (N.separated_list1 or_separator (term clause)) or_of

  unfoldable mutual
    unfolding disjunction not_factor parens query

    pub expression : ℕ → Parser N.E Query
    expression zero i = err out_of_fuel
    expression (suc fuel) i =
        disjunction (not_factor (λ j. factor fuel j) (parens (λ j. expression fuel j))) i

    pub factor : ℕ → Parser N.E Query
    factor zero i = err out_of_fuel
    factor (suc fuel) i = N.alt (parens (λ j. expression fuel j)) (query (λ j. factor fuel j)) i

  -- `parse_raw`; the fuel suffices, since each two levels read a character.
  unfoldable pub parse_raw : Parser N.E Query
  unfolding expression
  parse_raw i = N.complete (expression (2 * size i + 2)) i

  unfoldable pub parse : String → Result Query QueryParseError
  unfolding parse_raw complete_input
  parse i = elim (parse_raw i) [
    | err e ↦ err (parse_error (N.debug e))
    | ok (rest, q) ↦ complete_input rest q
  ]
