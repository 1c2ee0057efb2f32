-- ===== src/Query/Parser/Printer.antt =====
-- Queries written as texts that query-parser/src/parser.rs reads: a pattern in quotes, and each
-- conjunction, disjunction and negation in parentheses.
use Prim.Native.Char.{Char}
use funtonic.Base.{ℕ, suc, ◌<◌, ◌≤◌, String, ◌≡◌, Bool, true, not, arith}
use funtonic.Query.{Query, Queries, pattern, field_pattern, wildcard, and, or, nil, cons}
use funtonic.Query.Parser.Text.{size, contains, all_chars}
use funtonic.Query.Parser.Nom.{Nom}
use funtonic.Query.Parser.Grammar.{field_char}

-- A text in front of another.
unfoldable pub prepend : String → String → String
prepend String.[] rest = rest
prepend (String.◌∷◌ c s) rest = String.◌∷◌ c (prepend s rest)

unfoldable mutual
  unfolding prepend

  -- A query in front of a text.
  pub show : Query → String → String
  show (pattern s) rest = String.◌∷◌ "\"" (prepend s (String.◌∷◌ "\"" rest))
  show (field_pattern field q) rest = prepend field (String.◌∷◌ ":" (show q rest))
  show wildcard rest = String.◌∷◌ "*" rest
  show (and qs) rest = String.◌∷◌ "(" (show_all "&" qs (String.◌∷◌ ")" rest))
  show (or qs) rest = String.◌∷◌ "(" (show_all "|" qs (String.◌∷◌ ")" rest))
  show (Query.not q) rest = String.◌∷◌ "(" (String.◌∷◌ "!" (show q (String.◌∷◌ ")" rest)))

  -- Clauses, with a doubled character before each but the first.
  pub show_all : Char → Queries → String → String
  show_all c nil rest = rest
  show_all c (cons q qs) rest = show q (show_more c qs rest)

  pub show_more : Char → Queries → String → String
  show_more c nil rest = rest
  show_more c (cons q qs) rest = String.◌∷◌ c (String.◌∷◌ c (show q (show_more c qs rest)))

abbrev pub is_quoted : Char → Bool
is_quoted c = not (contains "\"" c)

abbrev pub clauses : Queries → ℕ
clauses nil = 0
clauses (cons q qs) = suc (clauses qs)

-- Patterns are not empty and hold no quote, names of fields are such names, and the connectives have
-- two clauses or more.
module _ (N : Nom) where
  unfoldable mutual
    unfolding field_char

    pub Printable : Query → Type 0
    Printable (pattern s) = (0 < size s) × (all_chars is_quoted s ≡ true)
    Printable (field_pattern field q) =
        (0 < size field) × (all_chars (field_char N) field ≡ true) × Printable q
    Printable wildcard = Unit
    Printable (and qs) = (1 < clauses qs) × PrintableAll qs
    Printable (or qs) = (1 < clauses qs) × PrintableAll qs
    Printable (Query.not q) = Printable q

    pub PrintableAll : Queries → Type 0
    PrintableAll nil = Unit
    PrintableAll (cons q qs) = Printable q × PrintableAll qs

pub size-prepend : (s rest : String) → size rest ≤ size (prepend s rest)
unfolding prepend
size-prepend String.[] rest = omega arith
size-prepend (String.◌∷◌ c s) rest = omega (arith, size-prepend s rest)

mutual
  unfolding show

  show-lt : (q : Query) (rest : String) → size rest < size (show q rest)
  show-lt (pattern s) rest = omega (arith, size-prepend s (String.◌∷◌ "\"" rest))
  show-lt (field_pattern field q) rest =
      omega (arith, size-prepend field (String.◌∷◌ ":" (show q rest)), show-lt q rest)
  show-lt wildcard rest = omega arith
  show-lt (and qs) rest = omega (arith, show_all-le "&" qs (String.◌∷◌ ")" rest))
  show-lt (or qs) rest = omega (arith, show_all-le "|" qs (String.◌∷◌ ")" rest))
  show-lt (Query.not q) rest = omega (arith, show-lt q (String.◌∷◌ ")" rest))

  show_all-le : (c : Char) (qs : Queries) (rest : String) → size rest ≤ size (show_all c qs rest)
  show_all-le c nil rest = omega arith
  show_all-le c (cons q qs) rest =
      omega (arith, show-lt q (show_more c qs rest), show_more-le c qs rest)

  show_more-le : (c : Char) (qs : Queries) (rest : String) → size rest ≤ size (show_more c qs rest)
  show_more-le c nil rest = omega arith
  show_more-le c (cons q qs) rest =
      omega (arith, show-lt q (show_more c qs rest), show_more-le c qs rest)

-- What follows a printed query is shorter than both together.
pub size-show : (q : Query) (rest : String) → size rest < size (show q rest)
size-show q rest = show-lt q rest
