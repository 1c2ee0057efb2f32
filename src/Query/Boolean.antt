-- ===== src/Query/Boolean.antt =====
-- Queries read as formulas, and the matchers of query-parser/src/lib.rs against that reading.
use mathlib.Core.Bool
use mathlib.Core.Path.{ap}
use funtonic.Base.{
  String, ◌≡◌, refl, Bool, true, false, ◌&&◌, ◌||◌, Option, none, some, arith, ◌==◌, all, any,
}
use funtonic.Query.{Query, Queries, pattern, field_pattern, wildcard, and, or, not, nil, cons}
use funtonic.Query.MatchResult.{matches, from_bool}
use funtonic.Query.Algebra.{matches-not}
use funtonic.Query.Matcher.{Matcher, str_qmatches, str_clauses, fields_qmatches, fields_clauses}
use funtonic.Query.Folds.{matches-fold_and, matches-fold_or}

-- A query as a formula of two-valued logic over its patterns.
module _ (pattern_holds : String → Bool) (field_holds : String → Query → Bool) where
  unfoldable mutual
    pub holds : Query → Bool
    holds (pattern p) = pattern_holds p
    holds (field_pattern field q) = field_holds field q
    holds wildcard = true
    holds (and qs) = holds_all qs
    holds (or qs) = holds_any qs
    holds (not q) = Bool.not (holds q)

    pub holds_all : Queries → Bool
    holds_all nil = true
    holds_all (cons q qs) = holds q && holds_all qs

    pub holds_any : Queries → Bool
    holds_any nil = false
    holds_any (cons q qs) = holds q || holds_any qs

-- A string satisfies the pattern that it equals, and no pattern about a field.
abbrev pub str_holds : String → Query → Bool
str_holds s = holds (λ p. p == s) (λ field q. false)

mutual
  unfolding str_qmatches holds matches from_bool

  str_matches : (s : String) (q : Query) → matches (str_qmatches s q) ≡ str_holds s q
  str_matches s (pattern p) = ground arith
  str_matches s (field_pattern field q) = refl
  str_matches s wildcard = refl
  str_matches s (and qs) = rw matches-fold_and (all-str_clauses s qs)
  str_matches s (or qs) = rw matches-fold_or (any-str_clauses s qs)
  str_matches s (not q) = rw matches-not (ap Bool.not (str_matches s q))

  all-str_clauses :
      (s : String) (qs : Queries)
      → all (str_clauses s qs) matches ≡ holds_all (λ p. p == s) (λ field q. false) qs
  all-str_clauses s nil = refl
  all-str_clauses s (cons q qs) = rw (str_matches s q, all-str_clauses s qs)

  any-str_clauses :
      (s : String) (qs : Queries)
      → any (str_clauses s qs) matches ≡ holds_any (λ p. p == s) (λ field q. false) qs
  any-str_clauses s nil = refl
  any-str_clauses s (cons q qs) = rw (str_matches s q, any-str_clauses s qs)

-- A string matches a query exactly when the query, read as a formula of two-valued logic in which a
-- pattern says that the string equals it and a field pattern is false, holds: the third result
-- `Rejected` never changes what matches.
pub str_qmatches-holds : (s : String) (q : Query) → matches (str_qmatches s q) ≡ str_holds s q
str_qmatches-holds s q = str_matches s q

-- Of a structure, a field pattern says that there is such a field and that it matches.
abbrev pub field_matches : (String → Option Matcher) → String → Query → Bool
field_matches extract_field field q = elim (extract_field field) [
  | none ↦ false
  | some v ↦ matches (v q)
]

abbrev pub fields_hold : (String → Option Matcher) → Query → Bool
fields_hold extract_field = holds (λ p. false) (field_matches extract_field)

mutual
  unfolding fields_qmatches holds matches

  fields_match :
      (ex : String → Option Matcher) (q : Query) → matches (fields_qmatches ex q) ≡ fields_hold ex q
  fields_match ex (pattern p) = refl
  fields_match ex (field_pattern field q) = ground arith
  fields_match ex wildcard = refl
  fields_match ex (and qs) = rw matches-fold_and (all-fields_clauses ex qs)
  fields_match ex (or qs) = rw matches-fold_or (any-fields_clauses ex qs)
  fields_match ex (not q) = rw matches-not (ap Bool.not (fields_match ex q))

  all-fields_clauses :
      (ex : String → Option Matcher) (qs : Queries)
      → all (fields_clauses ex qs) matches ≡ holds_all (λ p. false) (field_matches ex) qs
  all-fields_clauses ex nil = refl
  all-fields_clauses ex (cons q qs) = rw (fields_match ex q, all-fields_clauses ex qs)

  any-fields_clauses :
      (ex : String → Option Matcher) (qs : Queries)
      → any (fields_clauses ex qs) matches ≡ holds_any (λ p. false) (field_matches ex) qs
  any-fields_clauses ex nil = refl
  any-fields_clauses ex (cons q qs) = rw (fields_match ex q, any-fields_clauses ex qs)

-- A map matches a query exactly when the query, read as a formula of two-valued logic in which a
-- pattern is false and a field pattern says that the field is there and matches the rest, holds.
pub fields_qmatches-holds :
    (extract_field : String → Option Matcher) (q : Query)
    → matches (fields_qmatches extract_field q) ≡ fields_hold extract_field q
fields_qmatches-holds ex q = fields_match ex q
