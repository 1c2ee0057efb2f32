-- ===== src/Query/Parser/Nom.antt =====
-- The combinators of the nom crate that query-parser/src/parser.rs uses, as parameters, and what its
-- documentation says of them.
use Prim.Native.Char.{Char}
use funtonic.Base.{
  ℕ, ◌≤◌, ◌<◌, String, ◌≡◌, refl, Bool, not, Option, none, some, List, [], ◌∷◌, Result, ok, err,
  ◌>>=◌,
}
use funtonic.Query.Parser.Text.{
  size, contains, taken, left, strip, strip_no_case, is_space, skip_spaces, alphanumeric,
}

-- `nom::Err`. `out_of_fuel` is no value of the source: it ends the recursion of the model.
pub data Err (E : Type 0) : Type 0 where
  incomplete : Err E
  error failure : E → Err E
  out_of_fuel : Err E

-- `IResult<&str, A, E>`
abbrev pub Answer : Type 0 → Type 0 → Type 0
Answer E A = Result (String × A) (Err E)

abbrev pub Parser : Type 0 → Type 0 → Type 0
Parser E A = String → Answer E A

-- How `alt` and the lists go on: an `Error` is recoverable, any other ends the parser.
abbrev pub recover :
    {E A B : Type 0}
    → Result A (Err E)
    → (E → Result B (Err E))
    → (A → Result B (Err E))
    → Result B (Err E)
recover (ok a) other go = go a
recover (err incomplete) other go = err incomplete
recover (err (error e)) other go = other e
recover (err (failure e)) other go = err (failure e)
recover (err out_of_fuel) other go = err out_of_fuel

-- What goes on matters only at the value there is.
pub recover_congr :
    {E A B : Type 0} (r : Result A (Err E)) (other : E → Result B (Err E))
    (go go' : A → Result B (Err E))
    → ((a : A) → r ≡ ok a → go a ≡ go' a)
    → recover r other go ≡ recover r other go'
recover_congr (ok a) other go go' same = same a refl
recover_congr (err incomplete) other go go' same = refl
recover_congr (err (error e)) other go go' same = refl
recover_congr (err (failure e)) other go go' same = refl
recover_congr (err out_of_fuel) other go go' same = refl

-- `complete` turns `Incomplete` into an error.
abbrev pub completed : {E A : Type 0} → E → Result A (Err E) → Result A (Err E)
completed e (err incomplete) = err (error e)
completed e r = r

pub record Nom : Type 1 where
  -- `VerboseError<&str>`, and how it is printed by `{:?}`
  pub E : Type 0
  pub debug : Err E → String
  pub join : E → E → E
  pub complete : {A : Type 0} → Parser E A → Parser E A
  pub map : {A B : Type 0} → Parser E A → (A → B) → Parser E B
  pub alt : {A : Type 0} → Parser E A → Parser E A → Parser E A
  pub preceded : {A B : Type 0} → Parser E A → Parser E B → Parser E B
  pub terminated : {A B : Type 0} → Parser E A → Parser E B → Parser E A
  pub delimited : {A B C : Type 0} → Parser E A → Parser E B → Parser E C → Parser E B
  pub separated_pair : {A B C : Type 0} → Parser E A → Parser E B → Parser E C → Parser E (A × C)
  pub separated_list1 : {A B : Type 0} → Parser E B → Parser E A → Parser E (List A)
  -- its loop, after an element
  pub separated_more : {A B : Type 0} → Parser E B → Parser E A → Parser E (List A)
  pub tag : String → Parser E String
  pub tag_no_case : String → Parser E String
  pub char : Char → Parser E Char
  pub multispace0 : Parser E String
  pub multispace1 : Parser E String
  pub is_not : String → Parser E String
  pub take_while1 : (Char → Bool) → Parser E String
  pub is_alphanumeric : ℕ → Bool

-- A parser that reads what `rest` says, whatever text it gives, and recoverably fails where that is
-- `none`.
abbrev pub Skips : {E A : Type 0} → Option String → Answer E A → Type 0
Skips {E} {A} (some j) r = (a : A) × (r ≡ ok (j, a))
Skips {E} {A} none r = (e : E) × (r ≡ err (error e))

-- A parser that gives the text `text`, if that is not empty.
abbrev pub Takes : {E : Type 0} → String → String → Answer E String → Type 0
Takes {E} String.[] rest r = (e : E) × (r ≡ err (error e))
Takes {E} (String.◌∷◌ c s) rest r = r ≡ ok (rest, String.◌∷◌ c s)

-- The documentation of nom's combinators.
pub record IsNom (N : Nom) : Type 1 where
  pub complete_lem :
      {A : Type 0} (p : Parser N.E A) (i : String)
      → (e : N.E) × (N.complete p i ≡ completed e (p i))
  pub map_lem :
      {A B : Type 0} (p : Parser N.E A) (f : A → B) (i : String)
      → N.map p f i ≡ (p i >>= λ (j, a). ok (j, f a))
  pub alt_lem :
      {A : Type 0} (p q : Parser N.E A) (i : String)
      → N.alt p q i ≡ recover (p i) (λ e. recover (q i) (λ e'. err (error (N.join e e'))) ok) ok
  pub preceded_lem :
      {A B : Type 0} (p : Parser N.E A) (q : Parser N.E B) (i : String)
      → N.preceded p q i ≡ (p i >>= λ (j, a). q j)
  pub terminated_lem :
      {A B : Type 0} (p : Parser N.E A) (q : Parser N.E B) (i : String)
      → N.terminated p q i ≡ (p i >>= λ (j, a). q j >>= λ (k, b). ok (k, a))
  pub delimited_lem :
      {A B C : Type 0} (p : Parser N.E A) (q : Parser N.E B) (r : Parser N.E C) (i : String)
      → N.delimited p q r i ≡ (p i >>= λ (j, a). q j >>= λ (k, b). r k >>= λ (l, c). ok (l, b))
  pub separated_pair_lem :
      {A B C : Type 0} (p : Parser N.E A) (q : Parser N.E B) (r : Parser N.E C) (i : String)
      → N.separated_pair p q r i
        ≡ (p i >>= λ (j, a). q j >>= λ (k, b). r k >>= λ (l, c). ok (l, (a, c)))
  pub separated_list1_lem :
      {A B : Type 0} (sep : Parser N.E B) (p : Parser N.E A) (i : String)
      → N.separated_list1 sep p i
        ≡ (p i >>= λ (j, a). N.separated_more sep p j >>= λ (k, more). ok (k, a ∷ more))
  -- The loop ends without a failure where the separator or what follows it is not there. It is asked
  -- of a separator that reads something, and of a parser that gives back no more than it was given.
  pub separated_more_lem :
      {A B : Type 0} (sep : Parser N.E B) (p : Parser N.E A) (i : String)
      → ((j : String) (b : B)
          → sep i ≡ ok (j, b)
          → (size j < size i) × ((k : String) (a : A) → p j ≡ ok (k, a) → size k ≤ size j))
      → N.separated_more sep p i
        ≡ recover
            (sep i)
            (λ e. ok (i, []))
            (λ (j, b).
              recover
                (p j)
                (λ e. ok (i, []))
                (λ (k, a). N.separated_more sep p k >>= λ (l, more). ok (l, a ∷ more)))
  pub tag_lem : (t i : String) → Skips (strip t i) (N.tag t i)
  pub tag_no_case_lem : (t i : String) → Skips (strip_no_case t i) (N.tag_no_case t i)
  pub char_lem : (c : Char) (i : String) → Skips (strip (String.◌∷◌ c String.[]) i) (N.char c i)
  pub multispace0_lem : (i : String) → Skips (some (left is_space i)) (N.multispace0 i)
  pub multispace1_lem : (i : String) → Skips (skip_spaces i) (N.multispace1 i)
  pub is_not_lem :
      (t i : String)
      → let test = λ (c : Char). not (contains t c) in
        Takes (taken test i) (left test i) (N.is_not t i)
  pub take_while1_lem :
      (test : Char → Bool) (i : String) → Takes (taken test i) (left test i) (N.take_while1 test i)
  pub is_alphanumeric_lem : (n : ℕ) → N.is_alphanumeric n ≡ alphanumeric n
