-- ===== src/ExecutorMeta/Selection.antt =====
-- Which executors a query selects: `impl QueryMatcher for ExecutorMeta` against the reading of a
-- query as a formula about the client id and the tags.
use mathlib.Core.Bool
use mathlib.Core.Bool.{cond}
use mathlib.Core.Option
use funtonic.Base.{
  String, Bool, true, false, ◌&&◌, ◌≡◌, ◌∙◌, refl, none, some, List, [], ◌∷◌, arith, ◌==◌,
}
use funtonic.Base.HashMap
use funtonic.Query.{Query, Queries, pattern, field_pattern, wildcard, and, or, not, nil, cons}
use funtonic.Query.MatchResult
use funtonic.Query.MatchResult.{MatchResult, match, no_match, rejected, matches, from_bool}
use funtonic.Query.Matcher.{Matcher, str_qmatches, extract_field}
use funtonic.Query.Boolean.{holds}
use funtonic.Query.Slice.{some_match, all_match, some_reject, slice_holds, slice_qmatches-holds}
use funtonic.ExecutorMeta.{
  TagMap, ExecutorMeta, TagRef, empty, entry, tag_qmatches, entry_matchers, tag_ref_qmatches,
  qmatches, get_tag,
}

-- A map of tags hands a field pattern to the tag of that name.
pub extract_field-entry_matchers :
    (k : String) (m : TagMap)
    → extract_field (entry_matchers m) k ≡ Option.map tag_qmatches (get_tag k m)
unfolding extract_field tag_qmatches get_tag HashMap.get
extract_field-entry_matchers k empty = refl
extract_field-entry_matchers k (entry j t m) = ground (arith, extract_field-entry_matchers k m)

-- What a field pattern says of an executor: it has a tag of that name, which matches the rest.
unfoldable pub tag_matches : TagMap → String → Query → Bool
tag_matches m field q = elim (get_tag field m) [
  | none ↦ false
  | some t ↦ matches (tag_qmatches t q)
]

-- A query as a formula about an executor.
abbrev pub meta_holds : ExecutorMeta → Query → Bool
meta_holds meta = holds (λ p. p == meta.client_id) (tag_matches meta.tags)

-- A pattern, a field pattern or the wildcard, negated or not.
unfoldable pub is_atom : Query → Bool
is_atom (pattern p) = true
is_atom (field_pattern field q) = true
is_atom wildcard = true
is_atom _ = false

unfoldable pub is_literal : Query → Bool
unfolding is_atom
is_literal (not q) = is_atom q
is_literal q = is_atom q

unfoldable pub all_clauses : (Query → Bool) → Queries → Bool
all_clauses p nil = true
all_clauses p (cons q qs) = p q && all_clauses p qs

-- A literal, a conjunction of literals or a disjunction of atoms.
unfoldable pub is_simple : Query → Bool
unfolding is_literal all_clauses
is_simple (and qs) = all_clauses is_literal qs
is_simple (or qs) = all_clauses is_atom qs
is_simple q = is_literal q

-- The two items that a query is put to.
abbrev pub parts : ExecutorMeta → List Matcher
parts meta =
    tag_ref_qmatches (TagRef.value meta.client_id) ∷ tag_ref_qmatches (TagRef.map meta.tags) ∷ []

module _ (meta : ExecutorMeta) where
  atom : (q : Query) → is_atom q ≡ true → some_match (parts meta) q ≡ meta_holds meta q
  unfolding is_atom holds tag_ref_qmatches str_qmatches tag_matches matches from_bool
  atom (pattern p) h = ground arith
  atom (field_pattern field q) h = ground (arith, extract_field-entry_matchers field meta.tags)
  atom wildcard h = refl
  atom (and qs) h = cc
  atom (or qs) h = cc
  atom (not q) h = cc

  not_atom :
      (q : Query) → is_atom q ≡ true → all_match (parts meta) (not q) ≡ meta_holds meta (not q)
  unfolding is_atom holds tag_ref_qmatches str_qmatches tag_matches matches from_bool
      MatchResult.not
  not_atom (pattern p) h = ground arith
  not_atom (field_pattern field q) h = ground (arith, extract_field-entry_matchers field meta.tags)
  not_atom wildcard h = refl
  not_atom (and qs) h = cc
  not_atom (or qs) h = cc
  not_atom (not q) h = cc

  literal :
      (q : Query)
      → is_literal q ≡ true
      → (some_match (parts meta) q && Bool.not (some_reject (parts meta) q)) ≡ meta_holds meta q
  unfolding is_literal holds tag_ref_qmatches str_qmatches tag_matches matches from_bool
      MatchResult.not
  literal (pattern p) h = ground arith
  literal (field_pattern field q) h = ground (arith, extract_field-entry_matchers field meta.tags)
  literal wildcard h = refl
  literal (and qs) h = cc
  literal (or qs) h = cc
  literal (not (pattern p)) h = ground arith
  literal (not (field_pattern field q)) h =
      ground (arith, extract_field-entry_matchers field meta.tags)
  literal (not wildcard) h = refl
  literal (not (and qs)) h = cc
  literal (not (or qs)) h = cc
  literal (not (not q)) h = cc

  literals :
      (qs : Queries)
      → all_clauses is_literal qs ≡ true
      → slice_holds (parts meta) (and qs) ≡ meta_holds meta (and qs)
  unfolding all_clauses slice_holds holds
  literals nil h = refl
  literals (cons q qs) h = ground (arith, literal q, literals qs)

  atoms :
      (qs : Queries)
      → all_clauses is_atom qs ≡ true
      → slice_holds (parts meta) (or qs) ≡ meta_holds meta (or qs)
  unfolding all_clauses slice_holds holds
  atoms nil h = refl
  atoms (cons q qs) h = ground (arith, atom q, atoms qs)

  simple : (q : Query) → is_simple q ≡ true → slice_holds (parts meta) q ≡ meta_holds meta q
  unfolding is_simple slice_holds holds
  simple (and qs) h = literals qs h
  simple (or qs) h = atoms qs h
  simple (not q) h = not_atom q h
  simple (pattern p) h = atom (pattern p) h
  simple (field_pattern field q) h = atom (field_pattern field q) h
  simple wildcard h = refl

-- For a simple query (a pattern, a field pattern or the wildcard, each negated or not, or a
-- conjunction of such, or a disjunction of such that are not negated) an executor matches exactly
-- when the query, read as a formula, holds of it: a pattern says that the client id equals it, and
-- a field pattern that there is a tag of that name which matches the rest.
pub qmatches-holds :
    (meta : ExecutorMeta) (q : Query)
    → is_simple q ≡ true
    → matches (qmatches meta q) ≡ meta_holds meta q
unfolding qmatches
qmatches-holds meta q h = slice_qmatches-holds (parts meta) q ∙ simple meta q h
