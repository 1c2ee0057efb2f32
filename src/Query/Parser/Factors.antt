-- ===== src/Query/Parser/Factors.antt =====
-- Printed operands, read by `factor` of query-parser/src/parser.rs.
use funtonic.Base.{ℕ, suc, String, ◌≡◌, refl, ok}
use funtonic.Query.{Query, pattern, field_pattern, wildcard}
use funtonic.Query.Parser.Text.{strip}
use funtonic.Query.Parser.Nom.{Nom, IsNom, Parser}
use funtonic.Query.Parser.Grammar.{
  field_text, query, parens, not_factor, expression, factor, wildcard as read_wildcard,
}
use funtonic.Query.Parser.Printer.{prepend, show, Printable}
use funtonic.Query.Parser.Steps.{
  NoSpace, alt-first, alt-next, map_ok, map-Fails, terminated-Fails, char-Fails, parens-Fails,
  parens_ok, spaced_ok, not_factor_plain,
}
use funtonic.Query.Parser.Words.{field_name_ok, quoted_ok, name_heads, field_name-Fails_quote}
use funtonic.Query.Parser.Follows.{show-NoNot}

module _ (N : Nom) (law : IsNom N) where
  -- The parsers of a clause, with given fuel.
  abbrev pub clause : ℕ → Parser N.E Query
  clause fuel = not_factor N (λ i. factor N fuel i) (parens N (λ i. expression N fuel i))

  -- A printed query, read as a clause.
  abbrev pub ReadsClause : ℕ → Query → String → Type 0
  ReadsClause fuel q rest =
      factor N fuel (show q rest) ≡ ok (rest, q) → clause fuel (show q rest) ≡ ok (rest, q)

  pub clause_ok : (fuel : ℕ) (q : Query) (rest : String) → Printable N q → ReadsClause fuel q rest
  clause_ok fuel q rest p h = not_factor_plain N law _ _ (show q rest) (show-NoNot N law q rest p) h

  pub factor_pattern :
      (fuel : ℕ) (s rest : String)
      → Printable N (pattern s)
      → NoSpace rest
      → factor N (suc fuel) (show (pattern s) rest) ≡ ok (rest, pattern s)
  unfolding factor query field_text read_wildcard show strip Printable
  factor_pattern fuel s rest (some_text, quotable) none_left =
      let whole = show (pattern s) rest in
      let (e, no_name) = field_name-Fails_quote N law (prepend s (String.◌∷◌ "\"" rest)) in
      alt-next N law _ _ whole (parens-Fails N law _ whole refl) (
        alt-next N law _ _ whole
          (map-Fails N law _ _ whole
            (terminated-Fails N law _ _ whole (char-Fails N law "*" whole refl)))
          (alt-next N law _ _ whole
            (map-Fails N law _ _ whole (e, rw (law.separated_pair_lem _ _ _ whole, no_name)))
            (alt-first N law _ _ whole (
              map_ok N law _ _ whole rest s
                (quoted_ok N law s rest some_text quotable none_left)))))

  pub factor_field :
      (fuel : ℕ) (name : String) (q : Query) (rest : String)
      → Printable N (field_pattern name q)
      → factor N fuel (show q rest) ≡ ok (rest, q)
      → factor N (suc fuel) (show (field_pattern name q) rest) ≡ ok (rest, field_pattern name q)
  unfolding factor query field_text read_wildcard show strip Printable
  factor_field fuel name q rest (some_text, chars, _) h =
      let whole = show (field_pattern name q) rest in
      let heads = name_heads N law name (show q rest) chars in
      let (a, colon) = law.char_lem ":" (String.◌∷◌ ":" (show q rest)) in
      alt-next N law _ _ whole (parens-Fails N law _ whole heads.2) (
        alt-next N law _ _ whole
          (map-Fails N law _ _ whole
            (terminated-Fails N law _ _ whole (char-Fails N law "*" whole heads.4)))
          (alt-first N law _ _ whole (
            map_ok N law _ _ whole rest (name, q)
              (rw (
                law.separated_pair_lem _ _ _ whole,
                field_name_ok N law name (show q rest) some_text chars,
                colon,
                h,
              )))))

  pub factor-wildcard :
      (fuel : ℕ) (rest : String)
      → NoSpace rest
      → factor N (suc fuel) (show wildcard rest) ≡ ok (rest, wildcard)
  unfolding factor query read_wildcard show strip
  factor-wildcard fuel rest none_left =
      let whole = show wildcard rest in
      let (a, read) = law.char_lem "*" whole in
      alt-next N law _ _ whole (parens-Fails N law _ whole refl) (
        alt-first N law _ _ whole
          (map_ok N law _ _ whole rest a (spaced_ok N law _ whole rest a none_left read)))

  -- A query in parentheses.
  pub factor_parens :
      (fuel : ℕ) (i rest : String) (q : Query)
      → NoSpace i
      → NoSpace rest
      → expression N fuel i ≡ ok (String.◌∷◌ ")" rest, q)
      → factor N (suc fuel) (String.◌∷◌ "(" i) ≡ ok (rest, q)
  unfolding factor
  factor_parens fuel i rest q no_space none_left h =
      alt-first N law _ _ (String.◌∷◌ "(" i) (parens_ok N law _ i rest q no_space none_left h)
