-- ===== src/Query/Parser/RoundTrip.antt =====
-- A printed query is parsed back by `parse` of query-parser/src/lib.rs.
use funtonic.Base.{ℕ, zero, suc, ◌+◌, ◌*◌, ◌<◌, ◌≤◌, String, ◌≡◌, refl, ok, arith}
use funtonic.Query.{Query, Queries, pattern, field_pattern, wildcard, and, or, nil, cons}
use funtonic.Query.Parser.Text.{size, strip, strip_no_case, left}
use funtonic.Query.Parser.Nom.{Nom, IsNom, Parser}
use funtonic.Query.Parser.Grammar.{
  or_separator, and_separator, term, expression, factor, parse_raw, parse,
}
use funtonic.Query.Parser.Printer.{
  show, show_all, show_more, clauses, Printable, PrintableAll, size-show, size-prepend,
}
use funtonic.Query.Parser.Steps.{NoSpace}
use funtonic.Query.Parser.Lists.{
  and_separator_ok, or_separator_ok, and_separator-Fails, or_separator-Fails, not_factor_marked,
  more_stop, more_step, term_single, disjunction_single,
}
use funtonic.Query.Parser.Words.{ends-NoSpace}
use funtonic.Query.Parser.Follows.{
  show-NoSpace, closed-NoSpace, marked-NoSpace, show_all-NoSpace, more_and-ends, more_or-ends,
  closed_and-Fails, closed_or-Fails, more_or-Fails,
}
use funtonic.Query.Parser.Factors.{
  clause, clause_ok, factor_pattern, factor_field, factor-wildcard, factor_parens,
}
use funtonic.Query.Parser.Expressions.{
  clause_list, expression_single, expression_and, expression_or,
}

-- Fuel above a bound is a successor.
spend : {n : ℕ} (P : ℕ → Type 0) → ((f : ℕ) → n ≤ f → P (suc f)) → (f : ℕ) → n < f → P f
spend P k zero h = absurd (omega arith)
spend P k (suc f) h = k f (omega arith)

module _ (N : Nom) (law : IsNom N) where
  -- With enough fuel a parser reads a query off the front of a text.
  abbrev Reads : (ℕ → Parser N.E Query) → Query → String → Type 0
  Reads p q rest = (fuel : ℕ) → 2 * size (show q rest) < fuel → p fuel (show q rest) ≡ ok (rest, q)

  not_ok :
      (q : Query) (rest : String)
      → Printable N q
      → Reads (factor N) q (String.◌∷◌ ")" rest)
      → (fuel : ℕ) → 2 * size (show q (String.◌∷◌ ")" rest)) + 1 < fuel
      → expression N fuel (String.◌∷◌ "!" (show q (String.◌∷◌ ")" rest)))
        ≡ ok (String.◌∷◌ ")" rest, Query.not q)
  not_ok q rest p read = spend _ λ fuel h. expression_single N law fuel _ rest (Query.not q) (
      not_factor_marked N law _ _ _ _ q (show-NoSpace N law q (String.◌∷◌ ")" rest) p)
        (read fuel (omega arith)))

  mutual
    unfolding show Printable

    factor_ok : (q : Query) (rest : String) → Printable N q → NoSpace rest → Reads (factor N) q rest
    factor_ok (pattern s) rest p none_left =
        spend _ λ fuel h. factor_pattern N law fuel s rest p none_left
    factor_ok (field_pattern name q) rest p none_left = spend _ λ fuel h.
        factor_field N law fuel name q rest p (
          factor_ok q rest p.2 none_left fuel
            (omega (arith, size-prepend name (String.◌∷◌ ":" (show q rest)))))
    factor_ok wildcard rest p none_left =
        spend _ λ fuel h. factor-wildcard N law fuel rest none_left
    factor_ok (and qs) rest p none_left = spend _ λ fuel h.
        factor_parens N law fuel _ rest (and qs) (show_all-NoSpace N law "&" qs rest p.0 p.1)
          none_left (and_ok qs rest p.0 p.1 fuel (omega arith))
    factor_ok (or qs) rest p none_left = spend _ λ fuel h.
        factor_parens N law fuel _ rest (or qs) (show_all-NoSpace N law "|" qs rest p.0 p.1)
          none_left (or_ok qs rest p.0 p.1 fuel (omega arith))
    factor_ok (Query.not q) rest p none_left = spend _ λ fuel h.
        factor_parens N law fuel _ rest (Query.not q) (marked-NoSpace N law q rest) none_left (
          not_ok q rest p (factor_ok q (String.◌∷◌ ")" rest) p (closed-NoSpace N law rest)) fuel
            (omega arith))

    and_ok :
        (qs : Queries) (rest : String)
        → 1 < clauses qs
        → PrintableAll N qs
        → (fuel : ℕ) → 2 * size (show_all "&" qs (String.◌∷◌ ")" rest)) + 1 < fuel
        → expression N fuel (show_all "&" qs (String.◌∷◌ ")" rest))
          ≡ ok (String.◌∷◌ ")" rest, and qs)
    and_ok nil rest many p = absurd (omega arith)
    and_ok (cons q qs) rest many (p, ps) =
        let after = show_more "&" qs (String.◌∷◌ ")" rest) in
        spend _ λ fuel h.
          expression_and N law fuel q qs _ after rest many
            (clause_ok N law fuel q after p (
              factor_ok q after p (ends-NoSpace after (more_and-ends N law qs rest)) fuel
                (omega arith)))
            (more_and qs rest ps fuel (omega (arith, size-show q after)))

    or_ok :
        (qs : Queries) (rest : String)
        → 1 < clauses qs
        → PrintableAll N qs
        → (fuel : ℕ) → 2 * size (show_all "|" qs (String.◌∷◌ ")" rest)) + 1 < fuel
        → expression N fuel (show_all "|" qs (String.◌∷◌ ")" rest))
          ≡ ok (String.◌∷◌ ")" rest, or qs)
    or_ok nil rest many p = absurd (omega arith)
    or_ok (cons q qs) rest many (p, ps) =
        let after = show_more "|" qs (String.◌∷◌ ")" rest) in
        spend _ λ fuel h.
          expression_or N law fuel q qs _ after rest many
            (term_single N law _ _ after q
              (clause_ok N law fuel q after p (
                factor_ok q after p (ends-NoSpace after (more_or-ends N law qs rest)) fuel
                  (omega arith)))
              (more_or-Fails N law qs rest))
            (more_or qs rest ps fuel (omega (arith, size-show q after)))

    more_and :
        (qs : Queries) (rest : String)
        → PrintableAll N qs
        → (fuel : ℕ) → 2 * size (show_more "&" qs (String.◌∷◌ ")" rest)) ≤ fuel
        → N.separated_more
            (and_separator N)
            (clause N law fuel)
            (show_more "&" qs (String.◌∷◌ ")" rest))
          ≡ ok (String.◌∷◌ ")" rest, clause_list qs)
    more_and nil rest p fuel h = more_stop N law _ _ _ (closed_and-Fails N law rest)
    more_and (cons q qs) rest (p, ps) fuel h =
        let after = show_more "&" qs (String.◌∷◌ ")" rest) in
        let shorter = size-show q after in
        let (a, read) = and_separator_ok N law (show q after) (show-NoSpace N law q after p) in
        more_step N law _ _ _ (show q after) after (String.◌∷◌ ")" rest) a q (clause_list qs) read
          (omega arith)
          (clause_ok N law fuel q after p (
            factor_ok q after p (ends-NoSpace after (more_and-ends N law qs rest)) fuel
              (omega arith)))
          (omega arith) (more_and qs rest ps fuel (omega arith))

    more_or :
        (qs : Queries) (rest : String)
        → PrintableAll N qs
        → (fuel : ℕ) → 2 * size (show_more "|" qs (String.◌∷◌ ")" rest)) ≤ fuel
        → N.separated_more
            (or_separator N)
            (term N (clause N law fuel))
            (show_more "|" qs (String.◌∷◌ ")" rest))
          ≡ ok (String.◌∷◌ ")" rest, clause_list qs)
    more_or nil rest p fuel h = more_stop N law _ _ _ (closed_or-Fails N law rest)
    more_or (cons q qs) rest (p, ps) fuel h =
        let after = show_more "|" qs (String.◌∷◌ ")" rest) in
        let shorter = size-show q after in
        let (a, read) = or_separator_ok N law (show q after) (show-NoSpace N law q after p) in
        more_step N law _ _ _ (show q after) after (String.◌∷◌ ")" rest) a q (clause_list qs) read
          (omega arith)
          (term_single N law _ _ after q
            (clause_ok N law fuel q after p (
              factor_ok q after p (ends-NoSpace after (more_or-ends N law qs rest)) fuel
                (omega arith)))
            (more_or-Fails N law qs rest))
          (omega arith) (more_or qs rest ps fuel (omega arith))

  parse_raw-show : (q : Query) → Printable N q → parse_raw N (show q String.[]) ≡ ok (String.[], q)
  unfolding parse_raw left strip strip_no_case
  parse_raw-show q p =
      let i = show q String.[] in
      let (e, completes) = law.complete_lem (expression N (2 * size i + 2)) i in
      let enough : 2 * size i + 2 ≡ suc (2 * size i + 1) = omega arith in
      rw (completes, enough, whole (2 * size i + 1) (omega arith))
    where
      whole :
          (fuel : ℕ)
          → 2 * size (show q String.[]) < fuel
          → expression N (suc fuel) (show q String.[]) ≡ ok (String.[], q)
      whole fuel h =
          let i = show q String.[] in
          let read = clause_ok N law fuel q String.[] p (factor_ok q String.[] p refl fuel h) in
          let alone =
            term_single N law _ i String.[] q read (and_separator-Fails N law _ refl refl) in
          unfold expression in
          disjunction_single N law _ i String.[] q alone (or_separator-Fails N law _ refl refl refl)

  -- A printable query, printed, is parsed to the query itself, with nothing left.
  pub parse-show : (q : Query) → Printable N q → parse N (show q String.[]) ≡ ok q
  unfolding parse
  parse-show q p = rw (parse_raw-show q p, parse)
