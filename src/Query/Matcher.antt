-- ===== src/Query/Matcher.antt =====
-- The `QueryMatcher` implementations of query-parser/src/lib.rs. A value that implements the trait
-- is given by its method, a `Matcher`.
use mathlib.Core.List.{foldl}
use mathlib.Core.Option
use mathlib.Core.Option.{get_or}
use funtonic.Base.{String, Option, List, [], ◌∷◌, ◌==◌}
use funtonic.Base.HashMap
use funtonic.Base.HashMap.{HashMap}
use funtonic.Query.{Query, Queries, pattern, field_pattern, wildcard, and, or, not, nil, cons, each}
use funtonic.Query.MatchResult
use funtonic.Query.MatchResult.{MatchResult, match, no_match}

abbrev pub Matcher : Type 0
Matcher = Query → MatchResult

-- `iter().fold(Match, |m, r| m & r)` and its two siblings.
unfoldable pub fold_and : List MatchResult → MatchResult
unfolding MatchResult.bit_and
fold_and = foldl MatchResult.bit_and match

unfoldable pub fold_or : List MatchResult → MatchResult
unfolding MatchResult.bit_or
fold_or = foldl MatchResult.bit_or no_match

unfoldable pub fold_xor : List MatchResult → MatchResult
unfolding MatchResult.bit_xor
fold_xor = foldl MatchResult.bit_xor no_match

-- `impl QueryMatcher for &str`
unfoldable mutual
  pub str_qmatches : String → Query → MatchResult
  str_qmatches s (pattern p) = MatchResult.from_bool (p == s)
  str_qmatches s (field_pattern _ _) = no_match
  str_qmatches s wildcard = match
  str_qmatches s (and qs) = fold_and (str_clauses s qs)
  str_qmatches s (or qs) = fold_or (str_clauses s qs)
  str_qmatches s (not q) = MatchResult.not (str_qmatches s q)

  pub str_clauses : String → Queries → List MatchResult
  str_clauses s nil = []
  str_clauses s (cons q qs) = str_qmatches s q ∷ str_clauses s qs

-- `impl QueryMatcher for F: FieldExtractable`: `extract_field` gives the field's matcher.
unfoldable mutual
  pub fields_qmatches : (String → Option Matcher) → Query → MatchResult
  fields_qmatches extract_field (pattern _) = no_match
  fields_qmatches extract_field (field_pattern field q) =
      get_or (Option.map (λ v. v q) (extract_field field)) no_match
  fields_qmatches extract_field wildcard = match
  fields_qmatches extract_field (and qs) = fold_and (fields_clauses extract_field qs)
  fields_qmatches extract_field (or qs) = fold_or (fields_clauses extract_field qs)
  fields_qmatches extract_field (not q) = MatchResult.not (fields_qmatches extract_field q)

  pub fields_clauses : (String → Option Matcher) → Queries → List MatchResult
  fields_clauses extract_field nil = []
  fields_clauses extract_field (cons q qs) =
      fields_qmatches extract_field q ∷ fields_clauses extract_field qs

-- `impl FieldExtractable for HashMap<String, V>`
unfoldable pub extract_field : HashMap Matcher → String → Option Matcher
unfolding HashMap.get
extract_field m field = HashMap.get field m

unfoldable pub map_qmatches : HashMap Matcher → Query → MatchResult
unfolding extract_field fields_qmatches
map_qmatches m = fields_qmatches (extract_field m)

-- `self.iter()` over the items, each asked the query.
unfoldable pub items : List Matcher → Query → List MatchResult
items [] q = []
items (m ∷ ms) q = m q ∷ items ms q

-- `impl QueryMatcher for &[Q]`
unfoldable pub slice_qmatches : List Matcher → Query → MatchResult
unfolding fold_and fold_or fold_xor items each
slice_qmatches ms wildcard = match
slice_qmatches ms (and clauses) = fold_and (each (λ q. fold_xor (items ms q)) clauses)
slice_qmatches ms (or clauses) = fold_or (each (λ q. fold_or (items ms q)) clauses)
slice_qmatches ms (not q) = fold_and (items ms (not q))
slice_qmatches ms (pattern p) = fold_or (items ms (pattern p))
slice_qmatches ms (field_pattern field q) = fold_or (items ms (field_pattern field q))
