-- ===== src/Base/HashMap.antt =====
-- Rust's maps with `String` keys, as association lists. The order in which the model iterates is
-- one of those that the program may see.
use mathlib.Core.Bool.{Bool, true, false}
use mathlib.Core.Option.{Option, none, some}
use mathlib.Core.Path.{◌≡◌, refl}
use mathlib.Core.List.{List, [], ◌∷◌}
use Prim.Native.String.{String}
use native.Mathlib.Omega.{arith}
use text.Mathlib.Text.{◌==◌}
use text.Mathlib.TextEquality.{eq_iff}
use funtonic.Base.Tests.{if◌then◌else◌}

abbrev pub HashMap {ℓ} : Type ℓ → Type ℓ
HashMap V = List (String × V)

module _ {ℓ} {V : Type ℓ} where
  unfoldable pub get : String → HashMap V → Option V
  get k [] = none
  get k ((j, v) ∷ m) = if j == k then some v else get k m

  unfoldable pub insert : String → V → HashMap V → HashMap V
  insert k v [] = (k, v) ∷ []
  insert k v ((j, w) ∷ m) = if j == k then (j, v) ∷ m else (j, w) ∷ insert k v m

  unfoldable pub remove : String → HashMap V → HashMap V
  remove k [] = []
  remove k ((j, w) ∷ m) = let rest = remove k m in if j == k then rest else (j, w) ∷ rest

  unfoldable pub contains_key : String → HashMap V → Bool
  contains_key k m = elim (get k m) [ none ↦ false | some v ↦ true ]

  unfoldable pub keys : HashMap V → List String
  keys [] = []
  keys ((k, v) ∷ m) = k ∷ keys m

  -- No key stands twice.
  abbrev pub NodupKeys : HashMap V → Type 0
  NodupKeys [] = Unit
  NodupKeys ((k, v) ∷ m) = (contains_key k m ≡ false) × NodupKeys m

  pub get-nil : (k : String) → get k [] ≡ none
  unfolding get
  get-nil k = refl

  pub get-insert :
      (j k : String) (v : V) (m : HashMap V)
      → get j (insert k v m) ≡ (if k == j then some v else get j m)
  unfolding get insert
  get-insert j k v [] = refl
  get-insert j k v ((i, w) ∷ m) =
      ground (arith, eq_iff k j, eq_iff i k, eq_iff i j, get-insert j k v m)

  pub get-remove :
      (j k : String) (m : HashMap V) → get j (remove k m) ≡ (if k == j then none else get j m)
  unfolding get remove
  get-remove j k [] = ground arith
  get-remove j k ((i, w) ∷ m) = ground (arith, eq_iff i k, eq_iff i j, eq_iff k j, get-remove j k m)

  pub insert-NodupKeys :
      (k : String) (v : V) (m : HashMap V) → NodupKeys m → NodupKeys (insert k v m)
  unfolding insert contains_key get
  insert-NodupKeys k v [] _ = (refl, tt)
  insert-NodupKeys k v ((j, w) ∷ m) (fresh, u) =
      ground (arith, insert-NodupKeys k v m u, get-insert j k v m, eq_iff k j, eq_iff j k)

  pub remove-NodupKeys : (k : String) (m : HashMap V) → NodupKeys m → NodupKeys (remove k m)
  unfolding remove contains_key
  remove-NodupKeys k [] _ = tt
  remove-NodupKeys k ((j, w) ∷ m) (fresh, u) =
      ground (arith, remove-NodupKeys k m u, get-remove j k m, eq_iff k j)

pub ruleset map_laws = (get-nil, get-insert, get-remove)
