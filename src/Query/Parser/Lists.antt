-- ===== src/Query/Parser/Lists.antt =====
-- The lists of clauses of query-parser/src/parser.rs, and the separators between them.
use funtonic.Base.{◌<◌, ◌≤◌, String, ◌≡◌, none, List, [], ◌∷◌, ok}
use funtonic.Query.{Query}
use funtonic.Query.Parser.Text.{size, strip, strip_no_case}
use funtonic.Query.Parser.Nom.{Parser, Nom, IsNom}
use funtonic.Query.Parser.Grammar.{
  or_separator, and_separator, not_factor, conjunction, and_of, or_of, term, disjunction,
}
use funtonic.Query.Parser.Steps.{
  Fails, NoSpace, Skips-none, alt-first, alt-next, alt-Fails, map_ok, map-Fails, preceded_ok,
  preceded-Fails, terminated-Fails, tag-Fails, spaced_ok,
}

module _ (N : Nom) (law : IsNom N) where
  pub and_separator_ok :
      (i : String)
      → NoSpace i
      → (a : String) × (and_separator N (String.◌∷◌ "&" (String.◌∷◌ "&" i)) ≡ ok (i, a))
  unfolding and_separator strip strip_no_case
  and_separator_ok i none_left =
      let whole = String.◌∷◌ "&" (String.◌∷◌ "&" i) in
      let (a, read) = law.tag_lem "&&" whole in
      (
        a,
        alt-next N law _ _ whole
            (terminated-Fails N law _ _ whole (law.tag_no_case_lem "and" whole))
            (spaced_ok N law _ whole i a none_left read),
      )

  pub or_separator_ok :
      (i : String)
      → NoSpace i
      → (a : String) × (or_separator N (String.◌∷◌ "|" (String.◌∷◌ "|" i)) ≡ ok (i, a))
  unfolding or_separator strip strip_no_case
  or_separator_ok i none_left =
      let whole = String.◌∷◌ "|" (String.◌∷◌ "|" i) in
      let (a, read) = law.tag_lem "||" whole in
      (
        a,
        alt-next N law _ _ whole (terminated-Fails N law _ _ whole (law.tag_no_case_lem "or" whole))
            (spaced_ok N law _ whole i a none_left (alt-first N law _ _ whole read)),
      )

  pub and_separator-Fails :
      (i : String) → strip_no_case "and" i ≡ none → strip "&&" i ≡ none → Fails (and_separator N i)
  unfolding and_separator
  and_separator-Fails i h k =
      alt-Fails N law _ _ i
        (terminated-Fails N law _ _ i (Skips-none h (law.tag_no_case_lem "and" i)))
        (terminated-Fails N law _ _ i (tag-Fails N law "&&" i k))

  pub or_separator-Fails :
      (i : String)
      → strip_no_case "or" i ≡ none
      → strip "||" i ≡ none
      → strip "," i ≡ none
      → Fails (or_separator N i)
  unfolding or_separator
  or_separator-Fails i h k l =
      alt-Fails N law _ _ i
        (terminated-Fails N law _ _ i (Skips-none h (law.tag_no_case_lem "or" i)))
        (terminated-Fails N law _ _ i
          (alt-Fails N law _ _ i (tag-Fails N law "||" i k) (tag-Fails N law "," i l)))

  -- A mark of negation before an operand.
  pub not_factor_marked :
      (operand in_parens : Parser N.E Query) (i rest : String) (q : Query)
      → NoSpace i
      → operand i ≡ ok (rest, q)
      → not_factor N operand in_parens (String.◌∷◌ "!" i) ≡ ok (rest, Query.not q)
  unfolding not_factor strip strip_no_case
  not_factor_marked operand in_parens i rest q none_left h =
      let whole = String.◌∷◌ "!" i in
      let (a, read) = law.tag_lem "!" whole in
      alt-next N law _ _ whole
        (map-Fails N law _ _ whole (
          preceded-Fails N law _ _ whole
            (terminated-Fails N law _ _ whole (law.tag_no_case_lem "not" whole))))
        (alt-first N law _ _ whole (
          map_ok N law _ _ whole rest q
            (preceded_ok N law _ _ whole i a (spaced_ok N law _ whole i a none_left read) h)))

module _ (N : Nom) (law : IsNom N) {A B : Type 0} (sep : Parser N.E B) (p : Parser N.E A) where
  pub more_stop : (i : String) → Fails (sep i) → N.separated_more sep p i ≡ ok (i, [])
  more_stop i (e, h) = rw (
    law.separated_more_lem sep p i
        (λ (j : String) (b : B) (read : sep i ≡ ok (j, b)). absurd (cc (read, h))),
    h,
  )

  pub more_step :
      (i j k l : String) (b : B) (a : A) (more : List A)
      → sep i ≡ ok (j, b)
      → size j < size i
      → p j ≡ ok (k, a)
      → size k ≤ size j
      → N.separated_more sep p k ≡ ok (l, more)
      → N.separated_more sep p i ≡ ok (l, a ∷ more)
  more_step i j k l b a more read less got less' rest =
      rw (law.separated_more_lem sep p i progress, read, got, rest)
    where
      progress :
          (j' : String) (b' : B)
          → sep i ≡ ok (j', b')
          → (size j' < size i) × ((k' : String) (a' : A) → p j' ≡ ok (k', a') → size k' ≤ size j')
      progress j' b' read' =
          let same : j ≡ j' = cc in
          rw (← same) (less, λ k' a' got'. let same' : k ≡ k' = cc in rw (← same') less')

  pub list_ok :
      (i j k : String) (a : A) (more : List A)
      → p i ≡ ok (j, a)
      → N.separated_more sep p j ≡ ok (k, more)
      → N.separated_list1 sep p i ≡ ok (k, a ∷ more)
  list_ok i j k a more h g = rw (law.separated_list1_lem sep p i, h, g)

module _ (N : Nom) (law : IsNom N) (clause : Parser N.E Query) where
  -- A clause alone, where no separator follows.
  pub term_single :
      (i rest : String) (q : Query)
      → clause i ≡ ok (rest, q)
      → Fails (and_separator N rest)
      → term N clause i ≡ ok (rest, q)
  unfolding term conjunction and_of
  term_single i rest q h f = alt-first N law _ _ i (
      map_ok N law _ _ i rest (q ∷ [])
        (list_ok N law _ _ i rest rest q [] h (more_stop N law _ _ rest f)))

  pub disjunction_single :
      (i rest : String) (q : Query)
      → term N clause i ≡ ok (rest, q)
      → Fails (or_separator N rest)
      → disjunction N clause i ≡ ok (rest, q)
  unfolding disjunction or_of
  disjunction_single i rest q h f =
      map_ok N law _ _ i rest (q ∷ [])
        (list_ok N law _ _ i rest rest q [] h (more_stop N law _ _ rest f))
