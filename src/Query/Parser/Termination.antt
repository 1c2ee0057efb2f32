-- ===== src/Query/Parser/Termination.antt =====
-- The recursive descent of query-parser/src/parser.rs ends: what each parser leaves is shorter than
-- what it was given.
use funtonic.Base.{ℕ, zero, suc, ◌+◌, ◌*◌, ◌≤◌, ◌<◌, String, ◌≡◌, ◌≢◌, ok, err, arith}
use funtonic.Query.{Query}
use funtonic.Query.Parser.Text.{size}
use funtonic.Query.Parser.Nom.{Parser, out_of_fuel, Nom, IsNom}
use funtonic.Query.Parser.Grammar.{
  field_text, query, parens, not_factor, conjunction, term, disjunction, expression, factor,
}
use funtonic.Query.Parser.Ended.{
  Ended, Ended-mono, Ended-ne-out_of_fuel, Ended-ok, Ended-map, Ended-alt, Ended-preceded,
  Ended-delimited, Ended-separated_pair, separated_list1-Ended,
}
use funtonic.Query.Parser.Primitives.{
  tag-Ended, tag_no_case-Ended, char-Ended, field_name-Ended, spaced-Ended, spaced1-Ended,
  or_separator-Ended, and_separator-Ended, not_tags-Ended, quoted-Ended, wildcard-Ended, word-Ended,
}

module _ (N : Nom) (law : IsNom N) where
  -- A parser that ends on every input of at most `n` characters.
  abbrev EndsTo : {A : Type 0} → ℕ → Parser N.E A → Type 0
  EndsTo n p = (i : String) → size i ≤ n → Ended (size i) (p i)

  -- A field's name is read before its pattern, and a parenthesis before an expression.
  query-EndsTo :
      (n : ℕ) (pattern : Parser N.E Query)
      → ((i : String) → size i < n → Ended (size i) (pattern i))
      → EndsTo n (query N pattern)
  unfolding query field_text
  query-EndsTo n pattern h i k = Ended-alt N law _ _ i (wildcard-Ended N law i) (
      Ended-alt N law _ _ i
        (Ended-map N law _ _ i (
          Ended-separated_pair N law _ _ _ i (field_name-Ended N law i)
            (λ j less. Ended-mono (char-Ended N law ":" j) (omega arith))
            (λ j less. Ended-mono (h j (omega arith)) (omega arith))))
        (Ended-alt N law _ _ i (Ended-map N law _ _ i (quoted-Ended N law i))
          (Ended-map N law _ _ i (word-Ended N law i))))

  parens-EndsTo :
      (n : ℕ) (inner : Parser N.E Query)
      → ((i : String) → size i < n → Ended (size i) (inner i))
      → EndsTo n (parens N inner)
  unfolding parens
  parens-EndsTo n inner h i k =
      Ended-delimited N law _ _ _ i (spaced-Ended N law _ i (char-Ended N law "(" i))
        (λ j less. Ended-mono (h j (omega arith)) (omega arith))
        (λ j less. Ended-mono (spaced-Ended N law _ j (char-Ended N law ")" j)) (omega arith))

  not_factor-EndsTo :
      (n : ℕ) (operand in_parens : Parser N.E Query)
      → EndsTo n operand
      → EndsTo n in_parens
      → EndsTo n (not_factor N operand in_parens)
  unfolding not_factor
  not_factor-EndsTo n operand in_parens f g i k =
      Ended-alt N law _ _ i
        (Ended-map N law _ _ i (
          Ended-preceded N law _ _ i
            (spaced1-Ended N law _ i (tag_no_case-Ended N law "not" i (omega arith)))
            (λ j less. Ended-mono (f j (omega arith)) (omega arith))))
        (Ended-alt N law _ _ i
          (Ended-map N law _ _ i (
            Ended-preceded N law _ _ i
              (spaced-Ended N law _ i (tag-Ended N law "!" i (omega arith)))
              (λ j less. Ended-mono (f j (omega arith)) (omega arith))))
          (Ended-alt N law _ _ i
            (Ended-map N law _ _ i (
              Ended-preceded N law _ _ i (not_tags-Ended N law i)
                (λ j less. Ended-mono (g j (omega arith)) (omega arith))))
            (f i k)))

  term-EndsTo : (n : ℕ) (clause : Parser N.E Query) → EndsTo n clause → EndsTo n (term N clause)
  unfolding term conjunction
  term-EndsTo n clause h i k =
      Ended-alt N law _ _ i
        (Ended-map N law _ _ i (
          separated_list1-Ended N law _ _ (suc n) (λ j _. and_separator-Ended N law j)
            (λ j less. h j (omega arith)) i (omega arith)))
        (h i k)

  disjunction-EndsTo :
      (n : ℕ) (clause : Parser N.E Query) → EndsTo n clause → EndsTo n (disjunction N clause)
  unfolding disjunction
  disjunction-EndsTo n clause h i k = Ended-map N law _ _ i (
      separated_list1-Ended N law _ _ (suc n) (λ j _. or_separator-Ended N law j)
        (λ j less. term-EndsTo n clause h j (omega arith)) i (omega arith))

  mutual
    unfolding expression factor

    expression-Ended :
        (fuel : ℕ) (i : String) → 2 * size i + 2 ≤ fuel → Ended (size i) (expression N fuel i)
    expression-Ended zero i h = absurd (omega arith)
    expression-Ended (suc fuel) i h =
        disjunction-EndsTo (size i) _
          (not_factor-EndsTo (size i) _ _ (λ j k. factor-Ended fuel j (omega arith))
            (parens-EndsTo (size i) _ (λ j k. expression-Ended fuel j (omega arith))))
          i (omega arith)

    factor-Ended :
        (fuel : ℕ) (i : String) → 2 * size i + 1 ≤ fuel → Ended (size i) (factor N fuel i)
    factor-Ended zero i h = absurd (omega arith)
    factor-Ended (suc fuel) i h =
        Ended-alt N law _ _ i
          (parens-EndsTo (size i) _ (λ j k. expression-Ended fuel j (omega arith)) i (omega arith))
          (query-EndsTo (size i) _ (λ j k. factor-Ended fuel j (omega arith)) i (omega arith))

  -- With two units of fuel for each character of the input and two more, the parser of expressions
  -- ends, and what it leaves of the input, if it succeeds, is shorter than the input.
  pub expression_total :
      (fuel : ℕ) (i : String)
      → 2 * size i + 2 ≤ fuel
      → (expression N fuel i ≢ err out_of_fuel)
        × ((rest : String) (q : Query) → expression N fuel i ≡ ok (rest, q) → size rest < size i)
  expression_total fuel i h =
      let ended = expression-Ended fuel i h in (Ended-ne-out_of_fuel ended, Ended-ok ended)
