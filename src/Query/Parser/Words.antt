-- ===== src/Query/Parser/Words.antt =====
-- What the printed parts of a query begin with, and how names and quoted patterns are read.
use Prim.Native.Char.{Char, code}
use funtonic.Base.{
  ◌<◌, ◌%◌, String, ◌≡◌, refl, Bool, true, false, not, none, some, ok, arith, nat_eq, Bool-cases,
  inl, inr,
}
use funtonic.Query.Parser.Text.{
  size, contains, same_char, all_chars, taken, left, strip, strip_no_case, lower, is_space,
  skip_spaces, alphanumeric,
}
use funtonic.Query.Parser.Nom.{Answer, Nom, IsNom, Takes}
use funtonic.Query.Parser.Grammar.{field_char, field_name, quoted}
use funtonic.Query.Parser.Printer.{prepend, is_quoted}
use funtonic.Query.Parser.Steps.{Fails, NoSpace, NoNot, spaced_ok}

taken-prepend :
    (test : Char → Bool) (s rest : String) (c : Char)
    → all_chars test s ≡ true
    → test c ≡ false
    → taken test (prepend s (String.◌∷◌ c rest)) ≡ s
unfolding taken prepend
taken-prepend test String.[] rest c h k = rw k
taken-prepend test (String.◌∷◌ d s) rest c h k = elim (Bool-cases (test d)) [
  | inl passes ↦ rw (passes, taken-prepend test s rest c (rw passes at h) k)
  | inr fails ↦ absurd (cc (rw fails at h))
]

left-prepend :
    (test : Char → Bool) (s rest : String) (c : Char)
    → all_chars test s ≡ true
    → test c ≡ false
    → left test (prepend s (String.◌∷◌ c rest)) ≡ String.◌∷◌ c rest
unfolding left prepend
left-prepend test String.[] rest c h k = rw k
left-prepend test (String.◌∷◌ d s) rest c h k = elim (Bool-cases (test d)) [
  | inl passes ↦ rw (passes, left-prepend test s rest c (rw passes at h) k)
  | inr fails ↦ absurd (cc (rw fails at h))
]

Takes-some :
    {E : Type 0} (s rest : String) {r : Answer E String}
    → 0 < size s
    → Takes s rest r
    → r ≡ ok (rest, s)
Takes-some String.[] rest h t = absurd (omega arith)
Takes-some (String.◌∷◌ c s) rest h t = t

-- What may follow a printed query in its place: the end, a separator or a closing parenthesis.
abbrev pub ends : String → Bool
ends String.[] = true
ends (String.◌∷◌ c s) = contains ")&|" c

pub ends-NoSpace : (i : String) → ends i ≡ true → NoSpace i
unfolding left is_space contains
ends-NoSpace String.[] h = refl
ends-NoSpace (String.◌∷◌ c s) h = ground arith

module _ (N : Nom) (law : IsNom N) where
  -- A character of a name is none of those that a parser looks for at that place.
  field_char_lem :
      (c : Char)
      → field_char N c ≡ true
      → (is_space c ≡ false)
        × (same_char "!" c ≡ false)
        × (same_char "(" c ≡ false)
        × (same_char "*" c ≡ false)
        × (same_char "\"" c ≡ false)
  unfolding field_char is_space alphanumeric contains
  field_char_lem c h = let h' = rw (law.is_alphanumeric_lem (code c % 256)) at h in ground arith

  field_char-colon : field_char N ":" ≡ false
  unfolding field_char alphanumeric contains
  field_char-colon = rw (law.is_alphanumeric_lem 58)

  field_char-quote : field_char N "\"" ≡ false
  unfolding field_char alphanumeric contains
  field_char-quote = rw (law.is_alphanumeric_lem 34)

  pub field_name_ok :
      (name i : String)
      → 0 < size name
      → all_chars (field_char N) name ≡ true
      → field_name N (prepend name (String.◌∷◌ ":" i)) ≡ ok (String.◌∷◌ ":" i, name)
  unfolding field_name
  field_name_ok name i h k =
      let whole = prepend name (String.◌∷◌ ":" i) in
      let read = law.take_while1_lem (field_char N) whole in
      let all_taken = taken-prepend (field_char N) name i ":" k field_char-colon in
      let all_left = left-prepend (field_char N) name i ":" k field_char-colon in
      Takes-some name (String.◌∷◌ ":" i) h (rw (all_taken, all_left) at read)

  pub quoted_ok :
      (s rest : String)
      → 0 < size s
      → all_chars is_quoted s ≡ true
      → NoSpace rest
      → quoted N (String.◌∷◌ "\"" (prepend s (String.◌∷◌ "\"" rest))) ≡ ok (rest, s)
  unfolding quoted strip contains
  quoted_ok s rest h k none_left =
      let inner = prepend s (String.◌∷◌ "\"" rest) in
      let read = law.is_not_lem "\"" inner in
      let all_taken = taken-prepend is_quoted s rest "\"" k refl in
      let all_left = left-prepend is_quoted s rest "\"" k refl in
      let text = Takes-some s (String.◌∷◌ "\"" rest) h (rw (all_taken, all_left) at read) in
      let (a, opened) = law.char_lem "\"" (String.◌∷◌ "\"" inner) in
      let (b, closed) = law.char_lem "\"" (String.◌∷◌ "\"" rest) in
      spaced_ok N law _ (String.◌∷◌ "\"" inner) rest s none_left
        (rw (law.delimited_lem _ _ _ (String.◌∷◌ "\"" inner), opened, text, closed))

  -- What stands at the beginning of a name, or of what is left of one.
  pub name_heads :
      (name i : String)
      → all_chars (field_char N) name ≡ true
      → let whole = prepend name (String.◌∷◌ ":" i) in
        NoSpace whole
        × (skip_spaces whole ≡ none)
        × (strip "(" whole ≡ none)
        × (strip "!" whole ≡ none)
        × (strip "*" whole ≡ none)
  unfolding prepend left is_space skip_spaces strip
  name_heads String.[] i h = (refl, refl, refl, refl, refl)
  name_heads (String.◌∷◌ c name) i h = ground (arith, field_char_lem c)

  rest_of_name :
      (t name i j : String)
      → all_chars (λ c. not (nat_eq (lower (code c)) 58)) t ≡ true
      → all_chars (field_char N) name ≡ true
      → strip_no_case t (prepend name (String.◌∷◌ ":" i)) ≡ some j
      → (rest : String) × (prepend rest (String.◌∷◌ ":" i) ≡ j)
        × (all_chars (field_char N) rest ≡ true)
  unfolding strip_no_case prepend
  rest_of_name String.[] name i j h k e = (name, ground arith, k)
  rest_of_name (String.◌∷◌ c t) String.[] i j h k e = absurd (ground arith)
  rest_of_name (String.◌∷◌ c t) (String.◌∷◌ d name) i j h k e =
      rest_of_name t name i j (ground arith) (ground arith) (ground arith)

  pub name-NoNot :
      (name i : String)
      → all_chars (field_char N) name ≡ true
      → NoNot (prepend name (String.◌∷◌ ":" i))
  name-NoNot name i h = record {
    no_mark = (name_heads name i h).3;
    no_word = λ j found.
        let (rest, same, chars) = rest_of_name "not" name i j refl h found in
        let heads = name_heads rest i chars in rw (← same) (heads.1, heads.2);
  }

  pub field_name-Fails_quote : (i : String) → Fails (field_name N (String.◌∷◌ "\"" i))
  unfolding field_name taken left
  field_name-Fails_quote i =
      let read = law.take_while1_lem (field_char N) (String.◌∷◌ "\"" i) in
      rw field_char-quote at read
