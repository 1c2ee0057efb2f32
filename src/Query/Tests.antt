-- ===== src/Query/Tests.antt =====
-- Runs of query-parser/src/lib.rs taken from its tests, and the theorems at concrete queries.
use funtonic.Base.{◌≡◌, refl, List, [], ◌∷◌, String, Option}
use funtonic.Query.{Query, pattern, field_pattern, and, or, not, nil, cons}
use funtonic.Query.MatchResult
use funtonic.Query.MatchResult.{
  from_bool, MatchResult, match, no_match, rejected, matches, bit_and, bit_or, bit_xor,
}
use funtonic.Query.Matcher.{
  Matcher, str_qmatches, fields_qmatches, extract_field, slice_qmatches, fold_and, fold_or,
}
use funtonic.Query.Boolean.{fields_hold, fields_qmatches-holds}
use funtonic.Query.Slice.{slice_holds, slice_qmatches-holds}

-- prod and !qa
abbrev query : Query
query = and (cons (pattern "prod") (cons (not (pattern "qa")) nil))

str_run : str_qmatches "prod" query ≡ match
unfolding str_qmatches fold_and from_bool MatchResult.not
str_run = refl

str_not : str_qmatches "qa" (not (pattern "qa")) ≡ rejected
unfolding str_qmatches fold_and from_bool MatchResult.not
str_not = refl

-- foo, bar, prod
abbrev non_empty : List Matcher
non_empty = str_qmatches "foo" ∷ str_qmatches "bar" ∷ str_qmatches "prod" ∷ []

slice_and :
    slice_qmatches non_empty (and (cons (pattern "prod") (cons (pattern "bar") nil))) ≡ match
unfolding slice_qmatches str_qmatches from_bool MatchResult.not
slice_and = refl

slice_and_not :
    slice_qmatches non_empty (and (cons (pattern "prod") (cons (not (pattern "prod")) nil)))
    ≡ rejected
unfolding slice_qmatches str_qmatches from_bool MatchResult.not
slice_and_not = refl

slice_or_not :
    slice_qmatches non_empty (or (cons (pattern "prod") (cons (not (pattern "prod")) nil))) ≡ match
unfolding slice_qmatches str_qmatches from_bool MatchResult.not
slice_or_not = refl

-- env: prod, location: Paris
abbrev tags : String → Option Matcher
tags = extract_field (("env", str_qmatches "prod") ∷ ("location", str_qmatches "Paris") ∷ [])

map_or :
    fields_qmatches tags (
      or (
        cons
          (field_pattern "env" (pattern "qa"))
          (cons (field_pattern "location" (pattern "Paris")) nil)))
    ≡ match
unfolding fields_qmatches extract_field str_qmatches fold_or from_bool
map_or = refl

fields_qmatches-holds_example :
    matches (fields_qmatches tags (field_pattern "env" query))
    ≡ fields_hold tags (field_pattern "env" query)
fields_qmatches-holds_example = fields_qmatches-holds tags (field_pattern "env" query)

slice_qmatches-holds_example :
    matches (slice_qmatches non_empty query) ≡ slice_holds non_empty query
slice_qmatches-holds_example = slice_qmatches-holds non_empty query
