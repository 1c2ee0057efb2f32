-- ===== src/Query/Parser/Steps.antt =====
-- How the parsers of query-parser/src/parser.rs run, where their parts succeed or recoverably fail.
use Prim.Native.Char.{Char}
use funtonic.Base.{String, ◌≡◌, inl, inr, Option-cases, Option, none, some, ok, err, ◌>>=◌}
use funtonic.Query.{Query}
use funtonic.Query.Parser.Text.{strip, strip_no_case, left, is_space, skip_spaces}
use funtonic.Query.Parser.Nom.{error, Answer, Parser, Nom, IsNom, Skips}
use funtonic.Query.Parser.Grammar.{not_tags, parens, not_factor}

abbrev pub Fails : {E A : Type 0} → Answer E A → Type 0
Fails {E} r = (e : E) × (r ≡ err (error e))

Fails-bind :
    {E A B : Type 0} (r : Answer E A) (f : String × A → Answer E B) → Fails r → Fails (r >>= f)
Fails-bind r f (e, h) = (e, rw h)

pub Skips-none :
    {E A : Type 0} {o : Option String} {r : Answer E A} → o ≡ none → Skips o r → Fails r
Skips-none {E} {A} {o} {r} e h = rw e at h

pub Skips-some :
    {E A : Type 0} {o : Option String} {r : Answer E A} (j : String)
    → o ≡ some j
    → Skips o r
    → (a : A) × (r ≡ ok (j, a))
Skips-some j e h = rw e at h

module _ (N : Nom) (law : IsNom N) {A : Type 0} where
  pub alt-first :
      (p q : Parser N.E A) (i : String) {r : String × A} → p i ≡ ok r → N.alt p q i ≡ ok r
  alt-first p q i h = rw (law.alt_lem p q i, h)

  pub alt-next :
      (p q : Parser N.E A) (i : String) {r : String × A}
      → Fails (p i)
      → q i ≡ ok r
      → N.alt p q i ≡ ok r
  alt-next p q i (e, f) h = rw (law.alt_lem p q i, f, h)

  pub alt-Fails :
      (p q : Parser N.E A) (i : String) → Fails (p i) → Fails (q i) → Fails (N.alt p q i)
  alt-Fails p q i (e, f) (e', g) = (N.join e e', rw (law.alt_lem p q i, f, g))

module _ (N : Nom) (law : IsNom N) {A B : Type 0} where
  pub map_ok :
      (p : Parser N.E A) (f : A → B) (i j : String) (a : A)
      → p i ≡ ok (j, a)
      → N.map p f i ≡ ok (j, f a)
  map_ok p f i j a h = rw (law.map_lem p f i, h)

  pub map-Fails : (p : Parser N.E A) (f : A → B) (i : String) → Fails (p i) → Fails (N.map p f i)
  map-Fails p f i h = rw (law.map_lem p f i) (Fails-bind _ _ h)

  pub preceded_ok :
      (p : Parser N.E A) (q : Parser N.E B) (i j : String) (a : A) {r : String × B}
      → p i ≡ ok (j, a)
      → q j ≡ ok r
      → N.preceded p q i ≡ ok r
  preceded_ok p q i j a h k = rw (law.preceded_lem p q i, h) k

  pub preceded-Fails :
      (p : Parser N.E A) (q : Parser N.E B) (i : String) → Fails (p i) → Fails (N.preceded p q i)
  preceded-Fails p q i h = rw (law.preceded_lem p q i) (Fails-bind _ _ h)

  pub preceded-Fails_later :
      (p : Parser N.E A) (q : Parser N.E B) (i j : String) (a : A)
      → p i ≡ ok (j, a)
      → Fails (q j)
      → Fails (N.preceded p q i)
  preceded-Fails_later p q i j a h f = rw (law.preceded_lem p q i, h) f

  pub terminated_ok :
      (p : Parser N.E A) (q : Parser N.E B) (i j k : String) (a : A) (b : B)
      → p i ≡ ok (j, a)
      → q j ≡ ok (k, b)
      → N.terminated p q i ≡ ok (k, a)
  terminated_ok p q i j k a b h g = rw (law.terminated_lem p q i, h, g)

  pub terminated-Fails :
      (p : Parser N.E A) (q : Parser N.E B) (i : String) → Fails (p i) → Fails (N.terminated p q i)
  terminated-Fails p q i h = rw (law.terminated_lem p q i) (Fails-bind _ _ h)

  pub terminated-Fails_later :
      (p : Parser N.E A) (q : Parser N.E B) (i j : String) (a : A)
      → p i ≡ ok (j, a)
      → Fails (q j)
      → Fails (N.terminated p q i)
  terminated-Fails_later p q i j a h f = rw (law.terminated_lem p q i, h) (Fails-bind _ _ f)

-- An input that begins with no space, and one that begins with no `!` and with no `not` before a
-- space or a parenthesis.
abbrev pub NoSpace : String → Type 0
NoSpace i = left is_space i ≡ i

pub record NoNot (i : String) : Type 0 where
  pub no_mark : strip "!" i ≡ none
  pub no_word :
      (j : String) → strip_no_case "not" i ≡ some j → (skip_spaces j ≡ none) × (strip "(" j ≡ none)

module _ (N : Nom) (law : IsNom N) where
  pub tag-Fails : (t i : String) → strip t i ≡ none → Fails (N.tag t i)
  tag-Fails t i h = Skips-none h (law.tag_lem t i)

  pub char-Fails :
      (c : Char) (i : String) → strip (String.◌∷◌ c String.[]) i ≡ none → Fails (N.char c i)
  char-Fails c i h = Skips-none h (law.char_lem c i)

  -- Where no space follows, a parser that skips spaces leaves what it did.
  pub spaced_ok :
      {A : Type 0} (p : Parser N.E A) (i j : String) (a : A)
      → NoSpace j
      → p i ≡ ok (j, a)
      → N.terminated p N.multispace0 i ≡ ok (j, a)
  spaced_ok p i j a none_left h =
      let (s, read) = law.multispace0_lem j in
      terminated_ok N law p N.multispace0 i j j a s h (rw none_left at read)

  pub parens-Fails :
      (inner : Parser N.E Query) (i : String) → strip "(" i ≡ none → Fails (parens N inner i)
  unfolding parens
  parens-Fails inner i h =
      rw (law.delimited_lem _ inner _ i)
        (Fails-bind _ _ (terminated-Fails N law _ _ i (char-Fails "(" i h)))

  pub parens_ok :
      (inner : Parser N.E Query) (i rest : String) (q : Query)
      → NoSpace i
      → NoSpace rest
      → inner i ≡ ok (String.◌∷◌ ")" rest, q)
      → parens N inner (String.◌∷◌ "(" i) ≡ ok (rest, q)
  unfolding parens strip
  parens_ok inner i rest q no_space none_after h =
      let (a, opened) = law.char_lem "(" (String.◌∷◌ "(" i) in
      let (b, closed) = law.char_lem ")" (String.◌∷◌ ")" rest) in
      rw (
        law.delimited_lem _ inner _ (String.◌∷◌ "(" i),
        spaced_ok _ _ i a no_space opened,
        h,
        spaced_ok _ _ rest b none_after closed,
      )

  -- An operand with no negation before it.
  pub not_factor_plain :
      (operand inner : Parser N.E Query) (i : String) {r : String × Query}
      → NoNot i
      → operand i ≡ ok r
      → not_factor N operand (parens N inner) i ≡ ok r
  unfolding not_factor not_tags
  not_factor_plain operand inner i plain h =
      alt-next N law _ _ i (map-Fails N law _ _ i (preceded-Fails N law _ _ i spaced_not)) (
        alt-next N law _ _ i
          (map-Fails N law _ _ i (preceded-Fails N law _ _ i (terminated-Fails N law _ _ i marked)))
          (alt-next N law _ _ i (map-Fails N law _ _ i parens_not) h))
    where
      marked : Fails (N.tag "!" i)
      marked = tag-Fails "!" i (plain.no_mark)

      spaced_not : Fails (N.terminated (N.tag_no_case "not") N.multispace1 i)
      spaced_not = elim (Option-cases (strip_no_case "not" i)) [
        | inl absent ↦
            terminated-Fails N law _ _ i (Skips-none absent (law.tag_no_case_lem "not" i))
        | inr (j, found) ↦
            let (a, read) = Skips-some j found (law.tag_no_case_lem "not" i) in
            terminated-Fails_later N law _ _ i j a read
              (Skips-none (plain.no_word j found).0 (law.multispace1_lem j))
      ]

      parens_not : Fails (N.preceded (N.alt (N.tag_no_case "not") (N.tag "!")) (parens N inner) i)
      parens_not = elim (Option-cases (strip_no_case "not" i)) [
        | inl absent ↦
            preceded-Fails N law _ _ i
              (alt-Fails N law _ _ i (Skips-none absent (law.tag_no_case_lem "not" i)) marked)
        | inr (j, found) ↦
            let (a, read) = Skips-some j found (law.tag_no_case_lem "not" i) in
            preceded-Fails_later N law _ _ i j a (alt-first N law _ _ i read)
              (parens-Fails inner j (plain.no_word j found).1)
      ]
