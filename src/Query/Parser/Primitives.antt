-- ===== src/Query/Parser/Primitives.antt =====
-- What the parsers without recursion of query-parser/src/parser.rs leave.
use Prim.Native.Char.{Char}
use funtonic.Base.{ℕ, suc, ◌+◌, ◌≤◌, ◌<◌, String, ◌≡◌, Bool, some, arith, Bool-cases, inl, inr}
use funtonic.Query.Parser.Text.{size, taken, left, strip, strip_no_case, is_space, skip_spaces}
use funtonic.Query.Parser.Nom.{Answer, Parser, Nom, IsNom, Takes}
use funtonic.Query.Parser.Grammar.{
  or_separator, and_separator, not_tags, field_name, word, quoted, wildcard,
}
use funtonic.Query.Parser.Ended.{
  Ended, done, rejected, Ended-mono, Ended-Skips, Ended-map, Ended-alt, Ended-terminated,
  Ended-delimited,
}

pub left-le-size : (test : Char → Bool) (i : String) → size (left test i) ≤ size i
unfolding left
left-le-size test String.[] = omega arith
left-le-size test (String.◌∷◌ c s) = ground (arith, left-le-size test s)

pub strip-add-size : (t i j : String) → strip t i ≡ some j → size t + size j ≡ size i
unfolding strip
strip-add-size String.[] i j h = ground arith
strip-add-size (String.◌∷◌ c t) String.[] j h = ground arith
strip-add-size (String.◌∷◌ c t) (String.◌∷◌ d i) j h = ground (arith, strip-add-size t i j)

pub strip_no_case-add-size :
    (t i j : String) → strip_no_case t i ≡ some j → size t + size j ≡ size i
unfolding strip_no_case
strip_no_case-add-size String.[] i j h = ground arith
strip_no_case-add-size (String.◌∷◌ c t) String.[] j h = ground arith
strip_no_case-add-size (String.◌∷◌ c t) (String.◌∷◌ d i) j h =
    ground (arith, strip_no_case-add-size t i j)

pub skip_spaces-lt-size : (i j : String) → skip_spaces i ≡ some j → size j < size i
unfolding skip_spaces
skip_spaces-lt-size String.[] j h = ground arith
skip_spaces-lt-size (String.◌∷◌ c s) j h = ground (arith, left-le-size is_space s)

pub taken-add-left :
    (test : Char → Bool) (i : String) → size (taken test i) + size (left test i) ≡ size i
unfolding taken left
taken-add-left test String.[] = omega arith
taken-add-left test (String.◌∷◌ c s) = elim (Bool-cases (test c)) [
  | inl passes ↦ rw passes (omega (arith, taken-add-left test s))
  | inr fails ↦ rw fails (omega arith)
]

pub Ended-Takes :
    {E : Type 0} {n : ℕ} (t rest : String) {r : Answer E String}
    → Takes t rest r
    → size t + size rest ≡ n
    → Ended n r
Ended-Takes String.[] rest (e, h) k = rw h rejected
Ended-Takes (String.◌∷◌ c t) rest h k = rw h (done (omega arith))

module _ (N : Nom) (law : IsNom N) where
  pub multispace0-Ended : (i : String) → Ended (suc (size i)) (N.multispace0 i)
  multispace0-Ended i =
      let bound = left-le-size is_space i in
      Ended-Skips (some (left is_space i)) (law.multispace0_lem i)
        (λ j e. let same : left is_space i ≡ j = cc in rw (← same) (omega arith))

  pub multispace1-Ended : (i : String) → Ended (size i) (N.multispace1 i)
  multispace1-Ended i = Ended-Skips (skip_spaces i) (law.multispace1_lem i) (skip_spaces-lt-size i)

  pub tag-Ended : (t i : String) → 0 < size t → Ended (size i) (N.tag t i)
  tag-Ended t i h =
      Ended-Skips (strip t i) (law.tag_lem t i) (λ j e. omega (arith, strip-add-size t i j e))

  pub tag_no_case-Ended : (t i : String) → 0 < size t → Ended (size i) (N.tag_no_case t i)
  tag_no_case-Ended t i h =
      Ended-Skips (strip_no_case t i) (law.tag_no_case_lem t i)
        (λ j e. omega (arith, strip_no_case-add-size t i j e))

  pub char-Ended : (c : Char) (i : String) → Ended (size i) (N.char c i)
  char-Ended c i =
      Ended-Skips (strip (String.◌∷◌ c String.[]) i) (law.char_lem c i)
        (λ j e. omega (arith, strip-add-size (String.◌∷◌ c String.[]) i j e))

  pub is_not-Ended : (t i : String) → Ended (size i) (N.is_not t i)
  is_not-Ended t i = Ended-Takes _ _ (law.is_not_lem t i) (taken-add-left _ i)

  pub field_name-Ended : (i : String) → Ended (size i) (field_name N i)
  unfolding field_name
  field_name-Ended i = Ended-Takes _ _ (law.take_while1_lem _ i) (taken-add-left _ i)

  -- Spaces after a parser leave no more than it did.
  pub spaced-Ended :
      {A : Type 0} {n : ℕ} (p : Parser N.E A) (i : String)
      → Ended n (p i)
      → Ended n (N.terminated p N.multispace0 i)
  spaced-Ended p i h =
      Ended-terminated N law p N.multispace0 i h λ j less. Ended-mono (multispace0-Ended j) less

  pub spaced1-Ended :
      {A : Type 0} {n : ℕ} (p : Parser N.E A) (i : String)
      → Ended n (p i)
      → Ended n (N.terminated p N.multispace1 i)
  spaced1-Ended p i h =
      Ended-terminated N law p N.multispace1 i h
        λ j less. Ended-mono (multispace1-Ended j) (omega arith)

  pub or_separator-Ended : (i : String) → Ended (size i) (or_separator N i)
  unfolding or_separator
  or_separator-Ended i =
      Ended-alt N law _ _ i (spaced1-Ended _ i (tag_no_case-Ended "or" i (omega arith))) (
        spaced-Ended _ i
          (Ended-alt N law _ _ i (tag-Ended "||" i (omega arith)) (tag-Ended "," i (omega arith))))

  pub and_separator-Ended : (i : String) → Ended (size i) (and_separator N i)
  unfolding and_separator
  and_separator-Ended i =
      Ended-alt N law _ _ i (spaced1-Ended _ i (tag_no_case-Ended "and" i (omega arith)))
        (spaced-Ended _ i (tag-Ended "&&" i (omega arith)))

  pub not_tags-Ended : (i : String) → Ended (size i) (not_tags N i)
  unfolding not_tags
  not_tags-Ended i =
      Ended-alt N law _ _ i (tag_no_case-Ended "not" i (omega arith))
        (tag-Ended "!" i (omega arith))

  pub quoted-Ended : (i : String) → Ended (size i) (quoted N i)
  unfolding quoted
  quoted-Ended i = spaced-Ended _ i (
      Ended-delimited N law _ _ _ i (char-Ended "\"" i)
        (λ j less. Ended-mono (is_not-Ended "\"" j) (omega arith))
        (λ j less. Ended-mono (char-Ended "\"" j) (omega arith)))

  pub wildcard-Ended : (i : String) → Ended (size i) (wildcard N i)
  unfolding wildcard
  wildcard-Ended i = Ended-map N law _ _ i (spaced-Ended _ i (char-Ended "*" i))

  pub word-Ended : (i : String) → Ended (size i) (word N i)
  unfolding word
  word-Ended i = spaced-Ended _ i (is_not-Ended " ():,&|" i)
