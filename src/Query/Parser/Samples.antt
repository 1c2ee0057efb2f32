-- ===== src/Query/Parser/Samples.antt =====
-- Combinators as nom documents them, to run the parser with: errors are texts, joined.
use funtonic.Base.{
  ℕ, zero, suc, ◌≤◌, ◌<◌, String, ◌≡◌, refl, true, not, Option, none, some, List, [], ◌∷◌, ok, err,
  ◌>>=◌, ltb, if◌then◌else◌, arith, Bool-cases, inl, inr,
}
use funtonic.Query.Parser.Text.{
  size, contains, taken, left, strip, strip_no_case, is_space, skip_spaces, alphanumeric,
}
use funtonic.Query.Parser.Nom.{
  error, Answer, Parser, recover, recover_congr, completed, Nom, Skips, Takes, IsNom,
}

abbrev skipping : {A : Type 0} → A → Option String → Answer String A
skipping a (some j) = ok (j, a)
skipping a none = err (error "no match")

abbrev taking : String → String → Answer String String
taking String.[] rest = err (error "no match")
taking (String.◌∷◌ c s) rest = ok (rest, String.◌∷◌ c s)

skipping-Skips : {A : Type 0} (a : A) (o : Option String) → Skips o (skipping a o)
skipping-Skips a (some j) = (a, refl)
skipping-Skips a none = ("no match", refl)

taking-Takes : (s rest : String) → Takes s rest (taking s rest)
taking-Takes String.[] rest = ("no match", refl)
taking-Takes (String.◌∷◌ c s) rest = refl

unfoldable pub loop :
    {A B : Type 0} → ℕ → Parser String B → Parser String A → Parser String (List A)
loop zero sep p i = ok (i, [])
loop (suc n) sep p i =
    recover (sep i) (λ e. ok (i, []))
      (λ (j, b).
        recover (p j) (λ e. ok (i, []))
          (λ (k, a).
            if ltb (size k) (size i)
            then (loop n sep p k >>= λ (l, more). ok (l, a ∷ more))
            else err (error "no progress")))

unfoldable pub toy_nom : Nom
unfolding loop taken left strip strip_no_case is_space skip_spaces alphanumeric contains
toy_nom = record {
  E = String;
  debug = λ e. "error";
  join = λ e e'. e';
  complete = λ p i. completed "incomplete" (p i);
  map = λ p f i. p i >>= λ (j, a). ok (j, f a);
  alt = λ p q i. recover (p i) (λ e. recover (q i) (λ e'. err (error e')) ok) ok;
  preceded = λ p q i. p i >>= λ (j, a). q j;
  terminated = λ p q i. p i >>= λ (j, a). q j >>= λ (k, b). ok (k, a);
  delimited = λ p q r i. p i >>= λ (j, a). q j >>= λ (k, b). r k >>= λ (l, c). ok (l, b);
  separated_pair = λ p q r i. p i >>= λ (j, a). q j >>= λ (k, b). r k >>= λ (l, c). ok (l, (a, c));
  separated_list1 =
      λ sep p i. p i >>= λ (j, a). loop (suc (size j)) sep p j >>= λ (k, more). ok (k, a ∷ more);
  separated_more = λ sep p i. loop (suc (size i)) sep p i;
  tag = λ t i. skipping t (strip t i);
  tag_no_case = λ t i. skipping t (strip_no_case t i);
  char = λ c i. skipping c (strip (String.◌∷◌ c String.[]) i);
  multispace0 = λ i. ok (left is_space i, taken is_space i);
  multispace1 = λ i. skipping (taken is_space i) (skip_spaces i);
  is_not = λ t i. taking (taken (λ c. not (contains t c)) i) (left (λ c. not (contains t c)) i);
  take_while1 = λ test i. taking (taken test i) (left test i);
  is_alphanumeric = alphanumeric;
}

-- The loop's fuel does not matter once it exceeds the size of the input.
loop_fuel :
    {A B : Type 0} (sep : Parser String B) (p : Parser String A) (n m : ℕ) (i : String)
    → size i < n
    → size i < m
    → loop n sep p i ≡ loop m sep p i
unfolding loop
loop_fuel sep p zero m i h k = absurd (omega arith)
loop_fuel sep p (suc n) zero i h k = absurd (omega arith)
loop_fuel sep p (suc n) (suc m) i h k = recover_congr (sep i) _ _ _ λ (j, b) read.
    recover_congr (p j) _ _ _ λ (l, a) got. elim (Bool-cases (ltb (size l) (size i))) [
      | inr no_less ↦ rw no_less
      | inl less ↦ rw (less, loop_fuel sep p n m l (ground arith) (ground arith))
    ]

loop_lem :
    {A B : Type 0} (sep : Parser String B) (p : Parser String A) (i : String)
    → ((j : String) (b : B)
        → sep i ≡ ok (j, b)
        → (size j < size i) × ((k : String) (a : A) → p j ≡ ok (k, a) → size k ≤ size j))
    → loop (suc (size i)) sep p i
      ≡ recover
          (sep i)
          (λ e. ok (i, []))
          (λ (j, b).
            recover
              (p j)
              (λ e. ok (i, []))
              (λ (k, a). loop (suc (size k)) sep p k >>= λ (l, more). ok (l, a ∷ more)))
unfolding loop
loop_lem sep p i progress = recover_congr (sep i) _ _ _ λ (j, b) read.
    recover_congr (p j) _ _ _ λ (l, a) got.
      let (less, keeps) = progress j b read in
      let kept = keeps l a got in
      let less_still : ltb (size l) (size i) ≡ true = ground arith in
      rw (less_still, loop_fuel sep p (size i) (suc (size l)) l (omega arith) (omega arith))

pub toy_nom-IsNom : IsNom toy_nom
unfolding toy_nom
toy_nom-IsNom = record {
  complete_lem = λ p i. ("incomplete", refl);
  map_lem = λ p f i. refl;
  alt_lem = λ p q i. refl;
  preceded_lem = λ p q i. refl;
  terminated_lem = λ p q i. refl;
  delimited_lem = λ p q r i. refl;
  separated_pair_lem = λ p q r i. refl;
  separated_list1_lem = λ sep p i. refl;
  separated_more_lem = loop_lem;
  tag_lem = λ t i. skipping-Skips t (strip t i);
  tag_no_case_lem = λ t i. skipping-Skips t (strip_no_case t i);
  char_lem = λ c i. skipping-Skips c (strip (String.◌∷◌ c String.[]) i);
  multispace0_lem = λ i. (taken is_space i, refl);
  multispace1_lem = λ i. skipping-Skips (taken is_space i) (skip_spaces i);
  is_not_lem = λ t i. taking-Takes _ _;
  take_while1_lem = λ test i. taking-Takes _ _;
  is_alphanumeric_lem = λ n. refl;
}
