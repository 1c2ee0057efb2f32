-- ===== src/Query/Slice.antt =====
-- `impl QueryMatcher for &[Q]`: what a list of items matches, and that the order of the items does
-- not matter.
use mathlib.Core.Bool
use mathlib.Core.Bool.{Bool-set}
use funtonic.Base.{◌≡◌, refl, ◌∙◌, Bool, true, ◌&&◌, List, [], ◌∷◌, all, any}
use funtonic.Query.{Query, Queries, pattern, field_pattern, wildcard, and, or, not, each}
use funtonic.Query.MatchResult.{MatchResult, matches}
use funtonic.Query.Matcher.{Matcher, items, slice_qmatches, fold_or, fold_xor}
use funtonic.Query.Folds.{is_rejected, matches-fold_and, matches-fold_or, matches-fold_xor}

-- Some item matches, every item matches, no item rejects.
abbrev pub some_match : List Matcher → Query → Bool
some_match ms q = any ms (λ m. matches (m q))

abbrev pub all_match : List Matcher → Query → Bool
all_match ms q = all ms (λ m. matches (m q))

abbrev pub some_reject : List Matcher → Query → Bool
some_reject ms q = any ms (λ m. is_rejected (m q))

-- The reading of a query over a list. The clauses of a conjunction and of a disjunction are each
-- put to the items whole.
unfoldable pub slice_holds : List Matcher → Query → Bool
unfolding each
slice_holds ms wildcard = true
slice_holds ms (and clauses) =
    all (each (λ q. some_match ms q && Bool.not (some_reject ms q)) clauses) (λ b. b)
slice_holds ms (or clauses) = any (each (some_match ms) clauses) (λ b. b)
slice_holds ms (not q) = all_match ms (not q)
slice_holds ms (pattern p) = some_match ms (pattern p)
slice_holds ms (field_pattern field q) = some_match ms (field_pattern field q)

any-items :
    (p : MatchResult → Bool) (ms : List Matcher) (q : Query)
    → any (items ms q) p ≡ any ms (λ m. p (m q))
unfolding items
any-items p [] q = refl
any-items p (m ∷ ms) q = rw (any-items p ms q)

all-items :
    (p : MatchResult → Bool) (ms : List Matcher) (q : Query)
    → all (items ms q) p ≡ all ms (λ m. p (m q))
unfolding items
all-items p [] q = refl
all-items p (m ∷ ms) q = rw (all-items p ms q)

all-each-xor :
    (ms : List Matcher) (qs : Queries)
    → all (each (λ q. fold_xor (items ms q)) qs) matches
      ≡ all (each (λ q. some_match ms q && Bool.not (some_reject ms q)) qs) (λ b. b)
unfolding each
all-each-xor ms Queries.nil = refl
all-each-xor ms (Queries.cons q qs) = simp (matches-fold_xor, any-items, all-each-xor ms qs)

any-each-or :
    (ms : List Matcher) (qs : Queries)
    → any (each (λ q. fold_or (items ms q)) qs) matches ≡ any (each (some_match ms) qs) (λ b. b)
unfolding each
any-each-or ms Queries.nil = refl
any-each-or ms (Queries.cons q qs) = simp (matches-fold_or, any-items, any-each-or ms qs)

-- A list matches a conjunction when for each clause some item matches and no item rejects, a
-- disjunction when for some clause some item matches, a negation when every item matches the
-- negation, a pattern or a field pattern when some item matches it, and always the wildcard.
pub slice_qmatches-holds :
    (ms : List Matcher) (q : Query) → matches (slice_qmatches ms q) ≡ slice_holds ms q
unfolding slice_qmatches slice_holds matches
slice_qmatches-holds ms wildcard = refl
slice_qmatches-holds ms (and qs) =
    matches-fold_and (each (λ q. fold_xor (items ms q)) qs) ∙ all-each-xor ms qs
slice_qmatches-holds ms (or qs) =
    matches-fold_or (each (λ q. fold_or (items ms q)) qs) ∙ any-each-or ms qs
slice_qmatches-holds ms (not q) = matches-fold_and (items ms (not q)) ∙ all-items matches ms (not q)
slice_qmatches-holds ms (pattern p) =
    matches-fold_or (items ms (pattern p)) ∙ any-items matches ms (pattern p)
slice_qmatches-holds ms (field_pattern f q) =
    matches-fold_or (items ms (field_pattern f q)) ∙ any-items matches ms (field_pattern f q)
