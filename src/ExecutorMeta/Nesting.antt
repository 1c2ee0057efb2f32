-- ===== src/ExecutorMeta/Nesting.antt =====
-- Queries whose nesting changes what they select: `impl QueryMatcher for &[Q]` puts each clause to
-- the client id and to the tags apart, and each of the two answers for itself.
use mathlib.Core.Bool
use funtonic.Base.{String, Bool, true, false, ◌||◌, ◌&&◌, ◌≡◌, ◌∙◌, refl, arith, ◌==◌}
use funtonic.Query.{Query, Queries, pattern, field_pattern, wildcard, and, or, not, nil, cons}
use funtonic.Query.MatchResult
use funtonic.Query.MatchResult.{MatchResult, matches}
use funtonic.Query.Algebra.{matches-not}
use funtonic.Query.Matcher.{str_qmatches, fields_qmatches, extract_field}
use funtonic.Query.Boolean.{holds, holds_all, str_qmatches-holds, fields_qmatches-holds}
use funtonic.Query.Slice.{some_match, slice_holds, slice_qmatches-holds}
use funtonic.ExecutorMeta.{TagMap, ExecutorMeta, TagRef, entry_matchers, tag_ref_qmatches, qmatches}
use funtonic.ExecutorMeta.Selection.{parts}

-- The clause is a pattern; a field pattern; one of the two under a negation.
unfoldable pub is_pattern : Query → Bool
is_pattern (pattern p) = true
is_pattern _ = false

unfoldable pub is_field : Query → Bool
is_field (field_pattern field q) = true
is_field _ = false

unfoldable pub is_negated : Query → Bool
unfolding is_pattern is_field
is_negated (not q) = is_pattern q || is_field q
is_negated _ = false

unfoldable pub some_clause : (Query → Bool) → Queries → Bool
some_clause p nil = false
some_clause p (cons q qs) = p q || some_clause p qs

negated_matches :
    (meta : ExecutorMeta) (q : Query) → is_negated q ≡ true → some_match (parts meta) q ≡ true
unfolding is_negated tag_ref_qmatches str_qmatches MatchResult.not matches
negated_matches meta (not (pattern p)) h = ground arith
negated_matches meta (not (field_pattern field q)) h = refl
negated_matches meta (not (and qs)) h = cc
negated_matches meta (not (or qs)) h = cc
negated_matches meta (not (not q)) h = cc
negated_matches meta (not wildcard) h = cc
negated_matches meta (pattern p) h = cc
negated_matches meta (field_pattern field q) h = cc
negated_matches meta wildcard h = cc
negated_matches meta (and qs) h = cc
negated_matches meta (or qs) h = cc

or_negated_holds :
    (meta : ExecutorMeta) (qs : Queries)
    → some_clause is_negated qs ≡ true
    → slice_holds (parts meta) (or qs) ≡ true
unfolding some_clause slice_holds
or_negated_holds meta nil h = cc
or_negated_holds meta (cons q qs) h =
    ground (arith, negated_matches meta q, or_negated_holds meta qs)

-- A disjunction with a clause that negates a pattern or a field pattern matches every executor,
-- also one that satisfies what is negated and no other clause.
pub qmatches-or_negated :
    (meta : ExecutorMeta) (qs : Queries)
    → some_clause is_negated qs ≡ true
    → matches (qmatches meta (or qs)) ≡ true
unfolding qmatches
qmatches-or_negated meta qs h =
    slice_qmatches-holds (parts meta) (or qs) ∙ or_negated_holds meta qs h

str_and_field :
    (s : String) (qs : Queries)
    → some_clause is_field qs ≡ true
    → holds_all (λ p. p == s) (λ field q. false) qs ≡ false
unfolding some_clause holds is_field
str_and_field s nil h = cc
str_and_field s (cons (field_pattern field q) qs) h = refl
str_and_field s (cons q qs) h = ground (arith, str_and_field s qs)

fields_and_pattern :
    (f : String → Query → Bool) (qs : Queries)
    → some_clause is_pattern qs ≡ true
    → holds_all (λ p. false) f qs ≡ false
unfolding some_clause holds is_pattern
fields_and_pattern f nil h = cc
fields_and_pattern f (cons (pattern p) qs) h = refl
fields_and_pattern f (cons q qs) h = ground (arith, fields_and_pattern f qs)

-- A conjunction about both the client id and the tags, which neither of the two satisfies alone.
abbrev pub is_mixed : Queries → Bool
is_mixed qs = some_clause is_pattern qs && some_clause is_field qs

value_mixed :
    (s : String) (qs : Queries)
    → is_mixed qs ≡ true
    → matches (tag_ref_qmatches (TagRef.value s) (and qs)) ≡ false
unfolding tag_ref_qmatches
value_mixed s qs h =
    str_qmatches-holds s (and qs) ∙ unfold holds in str_and_field s qs (ground arith)

map_mixed :
    (m : TagMap) (qs : Queries)
    → is_mixed qs ≡ true
    → matches (tag_ref_qmatches (TagRef.map m) (and qs)) ≡ false
unfolding tag_ref_qmatches
map_mixed m qs h =
    fields_qmatches-holds (extract_field (entry_matchers m)) (and qs)
    ∙ unfold holds in fields_and_pattern _ qs (ground arith)

-- A conjunction that asks for a client id and for a tag adds nothing to a disjunction that it is a
-- clause of, although alone it selects the executors with that id and that tag.
qmatches-or_mixed :
    (meta : ExecutorMeta) (qs rest : Queries)
    → is_mixed qs ≡ true
    → matches (qmatches meta (or (cons (and qs) rest))) ≡ matches (qmatches meta (or rest))
unfolding qmatches slice_holds
qmatches-or_mixed meta qs rest h = cc (
  slice_qmatches-holds (parts meta) (or (cons (and qs) rest)),
  slice_qmatches-holds (parts meta) (or rest),
  value_mixed meta.client_id qs h,
  map_mixed meta.tags qs h,
)

matches-not_part :
    (part : TagRef) (q : Query)
    → matches (tag_ref_qmatches part (not q)) ≡ Bool.not (matches (tag_ref_qmatches part q))
unfolding tag_ref_qmatches
matches-not_part (TagRef.value s) q = matches-not (str_qmatches s q)
matches-not_part (TagRef.map m) q =
    matches-not (fields_qmatches (extract_field (entry_matchers m)) q)

-- The negation of a conjunction that asks for a client id and for a tag matches every executor,
-- also the one that the conjunction matches.
pub qmatches-not_mixed :
    (meta : ExecutorMeta) (qs : Queries)
    → is_mixed qs ≡ true
    → matches (qmatches meta (not (and qs))) ≡ true
unfolding qmatches slice_holds
qmatches-not_mixed meta qs h = cc (
  slice_qmatches-holds (parts meta) (not (and qs)),
  matches-not_part (TagRef.value meta.client_id) (and qs),
  matches-not_part (TagRef.map meta.tags) (and qs),
  value_mixed meta.client_id qs h,
  map_mixed meta.tags qs h,
)
