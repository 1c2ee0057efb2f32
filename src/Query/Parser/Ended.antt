-- ===== src/Query/Parser/Ended.antt =====
-- Parsers that keep within their fuel and leave less than a bound, built by nom's combinators.
use funtonic.Base.{
  ℕ, zero, suc, ◌≤◌, ◌<◌, String, ◌≡◌, refl, Option, none, some, ok, err, ◌>>=◌, arith, ◌≢◌,
}
use funtonic.Query.Parser.Text.{size}
use funtonic.Query.Parser.Nom.{
  incomplete, error, failure, out_of_fuel, Answer, Parser, recover, completed, Nom, IsNom, Skips,
}

-- The fuel was enough, and what is left is shorter than the bound.
pub data Ended {E A : Type 0} (bound : ℕ) : Answer E A → Type 0 where
  done : {j : String} {a : A} → size j < bound → Ended bound (ok (j, a))
  missing : Ended bound (err incomplete)
  rejected : {e : E} → Ended bound (err (error e))
  failed : {e : E} → Ended bound (err (failure e))

module _ {E A : Type 0} where
  pub Ended-mono : {m n : ℕ} {r : Answer E A} → Ended m r → m ≤ n → Ended n r
  Ended-mono (done h) k = done (omega arith)
  Ended-mono missing k = missing
  Ended-mono rejected k = rejected
  Ended-mono failed k = failed

  pub Ended-ne-out_of_fuel : {n : ℕ} {r : Answer E A} → Ended n r → r ≢ err out_of_fuel
  Ended-ne-out_of_fuel (done h) e = cc
  Ended-ne-out_of_fuel missing e = cc
  Ended-ne-out_of_fuel rejected e = cc
  Ended-ne-out_of_fuel failed e = cc

  pub Ended-ok :
      {n : ℕ} {r : Answer E A} → Ended n r → (j : String) (a : A) → r ≡ ok (j, a) → size j < n
  Ended-ok (done h) j a e = let same : _ ≡ j = cc in rw (← same) h
  Ended-ok missing j a e = absurd (cc)
  Ended-ok rejected j a e = absurd (cc)
  Ended-ok failed j a e = absurd (cc)

  pub Ended-completed : {n : ℕ} {r : Answer E A} (e : E) → Ended n r → Ended n (completed e r)
  Ended-completed e (done h) = done h
  Ended-completed e missing = rejected
  Ended-completed e rejected = rejected
  Ended-completed e failed = failed

  pub Ended-Skips :
      {n : ℕ} (o : Option String) {r : Answer E A}
      → Skips o r
      → ((j : String) → o ≡ some j → size j < n)
      → Ended n r
  Ended-Skips (some j) (a, e) less = rw e (done (less j refl))
  Ended-Skips none (e, h) less = rw h rejected

module _ {E A B : Type 0} where
  pub Ended-bind :
      {m n : ℕ} {r : Answer E A} (f : String × A → Answer E B)
      → Ended m r
      → ((j : String) (a : A) → size j < m → Ended n (f (j, a)))
      → Ended n (r >>= f)
  Ended-bind f (done {j} {a} h) k = k j a h
  Ended-bind f missing k = missing
  Ended-bind f rejected k = rejected
  Ended-bind f failed k = failed

  pub Ended-recover :
      {m n : ℕ} {r : Answer E A} (other : E → Answer E B) (go : String × A → Answer E B)
      → Ended m r
      → ((e : E) → Ended n (other e))
      → ((j : String) (a : A) → size j < m → Ended n (go (j, a)))
      → Ended n (recover r other go)
  Ended-recover other go (done {j} {a} h) o k = k j a h
  Ended-recover other go missing o k = missing
  Ended-recover other go (rejected {e}) o k = o e
  Ended-recover other go failed o k = failed

module _ (N : Nom) (law : IsNom N) {A : Type 0} where
  pub Ended-map :
      {B : Type 0} {n : ℕ} (p : Parser N.E A) (f : A → B) (i : String)
      → Ended n (p i)
      → Ended n (N.map p f i)
  Ended-map p f i h = rw (law.map_lem p f i) (Ended-bind _ h λ j a less. done less)

  pub Ended-alt :
      {n : ℕ} (p q : Parser N.E A) (i : String)
      → Ended n (p i)
      → Ended n (q i)
      → Ended n (N.alt p q i)
  Ended-alt p q i h k = rw (law.alt_lem p q i) (
      Ended-recover _ _ h (λ e. Ended-recover _ _ k (λ e'. rejected) (λ j a less. done less))
        (λ j a less. done less))

module _ (N : Nom) (law : IsNom N) {A B : Type 0} where
  pub Ended-preceded :
      {n : ℕ} (p : Parser N.E A) (q : Parser N.E B) (i : String)
      → Ended n (p i)
      → ((j : String) → size j < n → Ended n (q j))
      → Ended n (N.preceded p q i)
  Ended-preceded p q i h k = rw (law.preceded_lem p q i) (Ended-bind _ h λ j a less. k j less)

  pub Ended-terminated :
      {n : ℕ} (p : Parser N.E A) (q : Parser N.E B) (i : String)
      → Ended n (p i)
      → ((j : String) → size j < n → Ended n (q j))
      → Ended n (N.terminated p q i)
  Ended-terminated p q i h k =
      rw (law.terminated_lem p q i)
        (Ended-bind _ h λ j a less. Ended-bind _ (k j less) λ l b less_still. done less_still)

module _ (N : Nom) (law : IsNom N) {A B C : Type 0} where
  pub Ended-delimited :
      {n : ℕ} (p : Parser N.E A) (q : Parser N.E B) (r : Parser N.E C) (i : String)
      → Ended n (p i)
      → ((j : String) → size j < n → Ended n (q j))
      → ((j : String) → size j < n → Ended n (r j))
      → Ended n (N.delimited p q r i)
  Ended-delimited p q r i f g h = rw (law.delimited_lem p q r i) (
      Ended-bind _ f λ j a less.
        Ended-bind _ (g j less) λ k b less'. Ended-bind _ (h k less') λ t c less''. done less'')

  pub Ended-separated_pair :
      {n : ℕ} (p : Parser N.E A) (q : Parser N.E B) (r : Parser N.E C) (i : String)
      → Ended n (p i)
      → ((j : String) → size j < n → Ended n (q j))
      → ((j : String) → size j < n → Ended n (r j))
      → Ended n (N.separated_pair p q r i)
  Ended-separated_pair p q r i f g h = rw (law.separated_pair_lem p q r i) (
      Ended-bind _ f λ j a less.
        Ended-bind _ (g j less) λ k b less'. Ended-bind _ (h k less') λ t c less''. done less'')

-- A list whose separator and element each read something, wherever at most `n` are left.
module _ (N : Nom) (law : IsNom N) {A B : Type 0} (sep : Parser N.E B) (p : Parser N.E A) where
  separated_more-Ended :
      (n : ℕ)
      → ((j : String) → size j < n → Ended (size j) (sep j))
      → ((j : String) → size j < n → Ended (size j) (p j))
      → (i : String) → size i < n
      → Ended (suc (size i)) (N.separated_more sep p i)
  separated_more-Ended zero s e i h = absurd (omega arith)
  separated_more-Ended (suc n) s e i h = rw (law.separated_more_lem sep p i progress) (
      Ended-recover _ _ (s i h) (λ _. done (omega arith))
        λ j b less.
          Ended-recover _ _ (e j (omega arith)) (λ _. done (omega arith))
            λ k a less'.
              Ended-bind _
                (separated_more-Ended n (λ j h. s j (omega arith)) (λ j h. e j (omega arith)) k
                  (omega arith))
                λ l more less''. done (omega arith))
    where
      progress :
          (j : String) (b : B)
          → sep i ≡ ok (j, b)
          → (size j < size i) × ((k : String) (a : A) → p j ≡ ok (k, a) → size k ≤ size j)
      progress j b read =
          let less = Ended-ok (s i h) j b read in
          (less, λ k a got. let less' = Ended-ok (e j (omega arith)) k a got in omega arith)

  pub separated_list1-Ended :
      (n : ℕ)
      → ((j : String) → size j < n → Ended (size j) (sep j))
      → ((j : String) → size j < n → Ended (size j) (p j))
      → (i : String) → size i < n
      → Ended (size i) (N.separated_list1 sep p i)
  separated_list1-Ended n s e i h = rw (law.separated_list1_lem sep p i) (
      Ended-bind _ (e i h) λ j a less.
        Ended-bind _ (separated_more-Ended n s e j (omega arith))
          λ k more less'. done (omega arith))
