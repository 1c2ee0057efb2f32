-- ===== src/Query/Parser/Follows.antt =====
-- How printed queries begin and what follows them, as the parsers of query-parser/src/parser.rs
-- look at it.
use Prim.Native.Char.{Char}
use funtonic.Base.{◌<◌, String, ◌≡◌, refl, true, arith}
use funtonic.Query.{Query, Queries, pattern, field_pattern, wildcard, and, or, nil, cons}
use funtonic.Query.Parser.Text.{contains, strip, strip_no_case, left, is_space}
use funtonic.Query.Parser.Nom.{Nom, IsNom}
use funtonic.Query.Parser.Grammar.{or_separator, and_separator}
use funtonic.Query.Parser.Printer.{show, show_all, show_more, clauses, Printable, PrintableAll}
use funtonic.Query.Parser.Steps.{Fails, NoSpace, NoNot}
use funtonic.Query.Parser.Lists.{and_separator-Fails, or_separator-Fails}
use funtonic.Query.Parser.Words.{ends, name_heads, name-NoNot}

module _ (N : Nom) (law : IsNom N) where
  pub show-NoSpace : (q : Query) (rest : String) → Printable N q → NoSpace (show q rest)
  unfolding show left is_space Printable
  show-NoSpace (pattern s) rest p = refl
  show-NoSpace (field_pattern name q) rest p = (name_heads N law name (show q rest) p.1).0
  show-NoSpace wildcard rest p = refl
  show-NoSpace (and qs) rest p = refl
  show-NoSpace (or qs) rest p = refl
  show-NoSpace (Query.not q) rest p = refl

  pub show-NoNot : (q : Query) (rest : String) → Printable N q → NoNot (show q rest)
  unfolding show strip strip_no_case Printable
  show-NoNot (pattern s) rest p = record { no_mark = refl; no_word = λ j e. absurd (cc) }
  show-NoNot (field_pattern name q) rest p = name-NoNot N law name (show q rest) p.1
  show-NoNot wildcard rest p = record { no_mark = refl; no_word = λ j e. absurd (cc) }
  show-NoNot (and qs) rest p = record { no_mark = refl; no_word = λ j e. absurd (cc) }
  show-NoNot (or qs) rest p = record { no_mark = refl; no_word = λ j e. absurd (cc) }
  show-NoNot (Query.not q) rest p = record { no_mark = refl; no_word = λ j e. absurd (cc) }

  pub closed-NoSpace : (rest : String) → NoSpace (String.◌∷◌ ")" rest)
  unfolding left is_space
  closed-NoSpace rest = refl

  pub marked-NoSpace :
      (q : Query) (rest : String) → NoSpace (String.◌∷◌ "!" (show q (String.◌∷◌ ")" rest)))
  unfolding left is_space
  marked-NoSpace q rest = refl

  pub show_all-NoSpace :
      (c : Char) (qs : Queries) (rest : String)
      → 1 < clauses qs
      → PrintableAll N qs
      → NoSpace (show_all c qs (String.◌∷◌ ")" rest))
  unfolding show Printable
  show_all-NoSpace c nil rest many p = absurd (omega arith)
  show_all-NoSpace c (cons q qs) rest many p = show-NoSpace q _ p.0

  -- After clauses of a conjunction, or of a disjunction, in parentheses.
  pub more_and-ends :
      (qs : Queries) (rest : String) → ends (show_more "&" qs (String.◌∷◌ ")" rest)) ≡ true
  unfolding show contains
  more_and-ends nil rest = refl
  more_and-ends (cons q qs) rest = refl

  pub more_or-ends :
      (qs : Queries) (rest : String) → ends (show_more "|" qs (String.◌∷◌ ")" rest)) ≡ true
  unfolding show contains
  more_or-ends nil rest = refl
  more_or-ends (cons q qs) rest = refl

  pub closed_and-Fails : (rest : String) → Fails (and_separator N (String.◌∷◌ ")" rest))
  unfolding strip strip_no_case
  closed_and-Fails rest = and_separator-Fails N law (String.◌∷◌ ")" rest) refl refl

  pub closed_or-Fails : (rest : String) → Fails (or_separator N (String.◌∷◌ ")" rest))
  unfolding strip strip_no_case
  closed_or-Fails rest = or_separator-Fails N law (String.◌∷◌ ")" rest) refl refl refl

  pub more_or-Fails :
      (qs : Queries) (rest : String)
      → Fails (and_separator N (show_more "|" qs (String.◌∷◌ ")" rest)))
  unfolding show strip strip_no_case
  more_or-Fails nil rest = closed_and-Fails rest
  more_or-Fails (cons q qs) rest =
      and_separator-Fails N law (show_more "|" (cons q qs) (String.◌∷◌ ")" rest)) refl refl
