-- ===== src/Query/Parser/Expressions.antt =====
-- Printed clauses in parentheses, read by `expression` of query-parser/src/parser.rs.
use funtonic.Base.{ℕ, suc, ◌<◌, String, ◌≡◌, refl, List, [], ◌∷◌, ok, arith}
use funtonic.Query.{Query, Queries, and, or, nil, cons}
use funtonic.Query.Parser.Nom.{Nom, IsNom}
use funtonic.Query.Parser.Grammar.{
  queries, and_of, or_of, or_separator, and_separator, conjunction, term, disjunction, expression,
}
use funtonic.Query.Parser.Printer.{clauses}
use funtonic.Query.Parser.Steps.{alt-first, map_ok}
use funtonic.Query.Parser.Lists.{list_ok, term_single, disjunction_single}
use funtonic.Query.Parser.Follows.{closed_and-Fails, closed_or-Fails}
use funtonic.Query.Parser.Factors.{clause}

abbrev pub clause_list : Queries → List Query
clause_list nil = []
clause_list (cons q qs) = q ∷ clause_list qs

pub queries-clause_list : (qs : Queries) → queries (clause_list qs) ≡ qs
unfolding queries
queries-clause_list nil = refl
queries-clause_list (cons q qs) = rw (queries-clause_list qs)

pub and_of_many : (qs : Queries) → 1 < clauses qs → and_of (clause_list qs) ≡ and qs
unfolding and_of
and_of_many nil h = absurd (omega arith)
and_of_many (cons q nil) h = absurd (omega arith)
and_of_many (cons q (cons r qs)) h = rw (queries-clause_list (cons q (cons r qs)))

pub or_of_many : (qs : Queries) → 1 < clauses qs → or_of (clause_list qs) ≡ or qs
unfolding or_of
or_of_many nil h = absurd (omega arith)
or_of_many (cons q nil) h = absurd (omega arith)
or_of_many (cons q (cons r qs)) h = rw (queries-clause_list (cons q (cons r qs)))

module _ (N : Nom) (law : IsNom N) where
  -- One clause, then a closing parenthesis.
  pub expression_single :
      (fuel : ℕ) (i rest : String) (q : Query)
      → clause N law fuel i ≡ ok (String.◌∷◌ ")" rest, q)
      → expression N (suc fuel) i ≡ ok (String.◌∷◌ ")" rest, q)
  unfolding expression
  expression_single fuel i rest q h =
      disjunction_single N law _ i _ q (term_single N law _ i _ q h (closed_and-Fails N law rest))
        (closed_or-Fails N law rest)

  pub expression_and :
      (fuel : ℕ) (q : Query) (qs : Queries) (i j rest : String)
      → 1 < clauses (cons q qs)
      → clause N law fuel i ≡ ok (j, q)
      → N.separated_more (and_separator N) (clause N law fuel) j
        ≡ ok (String.◌∷◌ ")" rest, clause_list qs)
      → expression N (suc fuel) i ≡ ok (String.◌∷◌ ")" rest, and (cons q qs))
  unfolding expression term conjunction
  expression_and fuel q qs i j rest many h k =
      disjunction_single N law _ i _ _
        (alt-first N law _ _ i (
          rw (← and_of_many (cons q qs) many) (
            map_ok N law _ and_of i _ (clause_list (cons q qs))
              (list_ok N law _ _ i j _ q (clause_list qs) h k))))
        (closed_or-Fails N law rest)

  pub expression_or :
      (fuel : ℕ) (q : Query) (qs : Queries) (i j rest : String)
      → 1 < clauses (cons q qs)
      → term N (clause N law fuel) i ≡ ok (j, q)
      → N.separated_more (or_separator N) (term N (clause N law fuel)) j
        ≡ ok (String.◌∷◌ ")" rest, clause_list qs)
      → expression N (suc fuel) i ≡ ok (String.◌∷◌ ")" rest, or (cons q qs))
  unfolding expression disjunction
  expression_or fuel q qs i j rest many h k = rw (← or_of_many (cons q qs) many) (
      map_ok N law _ or_of i _ (clause_list (cons q qs))
        (list_ok N law _ _ i j _ q (clause_list qs) h k))
