-- ===== src/Query/Order.antt =====
-- `impl QueryMatcher for &[Q]`: the order of the items does not matter.
use mathlib.Core.Bool.{Bool-set}
use mathlib.Core.Logic.{∥∥₁_elim}
use mathlib.Core.List.{Perm, Permᴰ, map}
use mathlib.Core.List.Perm
use mathlib.Core.Path.{fun_ext}
use funtonic.Base.{◌≡◌, refl, ◌∙◌, Bool, List, [], ◌∷◌, arith, all, any, ap}
use funtonic.Query.{Query, Queries, pattern, field_pattern, wildcard, and, or, not, each}
use funtonic.Query.MatchResult.{MatchResult, matches}
use funtonic.Query.Matcher.{Matcher, items, slice_qmatches, fold_and, fold_or, fold_xor}
use funtonic.Query.Folds.{is_rejected, folds_lem}

any_of_permᴰ {ℓ} : {A : Type ℓ} (p : A → Bool) {xs ys : List A} → Permᴰ xs ys → any xs p ≡ any ys p
any_of_permᴰ p Permᴰ.nil = refl
any_of_permᴰ p (Permᴰ.cons e r) = cc (ap p e, any_of_permᴰ p r)
any_of_permᴰ p (Permᴰ.swap {a} {b} {a' = c} {b' = d} e f) = ground (arith, ap p e, ap p f)
any_of_permᴰ p (Permᴰ.trans r s) = any_of_permᴰ p r ∙ any_of_permᴰ p s

all_of_permᴰ {ℓ} : {A : Type ℓ} (p : A → Bool) {xs ys : List A} → Permᴰ xs ys → all xs p ≡ all ys p
all_of_permᴰ p Permᴰ.nil = refl
all_of_permᴰ p (Permᴰ.cons e r) = cc (ap p e, all_of_permᴰ p r)
all_of_permᴰ p (Permᴰ.swap e f) = ground (arith, ap p e, ap p f)
all_of_permᴰ p (Permᴰ.trans r s) = all_of_permᴰ p r ∙ all_of_permᴰ p s

pub any_of_perm {ℓ} :
    {A : Type ℓ} (p : A → Bool) {xs ys : List A} → Perm xs ys → any xs p ≡ any ys p
any_of_perm p h = ∥∥₁_elim h (Bool-set _ _) (any_of_permᴰ p)

pub all_of_perm {ℓ} :
    {A : Type ℓ} (p : A → Bool) {xs ys : List A} → Perm xs ys → all xs p ≡ all ys p
all_of_perm p h = ∥∥₁_elim h (Bool-set _ _) (all_of_permᴰ p)

-- All three folds depend only on which results occur.
module _ {xs ys : List MatchResult} (h : Perm xs ys) where
  fold_and_of_perm : fold_and xs ≡ fold_and ys
  fold_and_of_perm =
      cc ((folds_lem xs).0, (folds_lem ys).0, any_of_perm is_rejected h, all_of_perm matches h)

  fold_or_of_perm : fold_or xs ≡ fold_or ys
  fold_or_of_perm =
      cc ((folds_lem xs).1, (folds_lem ys).1, any_of_perm is_rejected h, any_of_perm matches h)

  fold_xor_of_perm : fold_xor xs ≡ fold_xor ys
  fold_xor_of_perm =
      cc ((folds_lem xs).2, (folds_lem ys).2, any_of_perm is_rejected h, any_of_perm matches h)

items-eq-map : (ms : List Matcher) (q : Query) → items ms q ≡ map (λ m. m q) ms
unfolding items
items-eq-map [] q = refl
items-eq-map (m ∷ ms) q = rw (items-eq-map ms q)

perm-items : {ms ns : List Matcher} → Perm ms ns → (q : Query) → Perm (items ms q) (items ns q)
perm-items {ms} {ns} h q = rw (items-eq-map ms q, items-eq-map ns q) (Perm.map (λ m. m q) h)

each_ext :
    {f g : Query → MatchResult} (qs : Queries) → ((q : Query) → f q ≡ g q) → each f qs ≡ each g qs
each_ext qs e = ap (λ f. each f qs) (fun_ext e)

-- The result for a list, also where it is no match, does not depend on the order of the items.
slice_qmatches_of_perm :
    {ms ns : List Matcher} → Perm ms ns → (q : Query) → slice_qmatches ms q ≡ slice_qmatches ns q
unfolding slice_qmatches
slice_qmatches_of_perm h wildcard = refl
slice_qmatches_of_perm h (and qs) =
    ap fold_and (each_ext qs (λ q. fold_xor_of_perm (perm-items h q)))
slice_qmatches_of_perm h (or qs) = ap fold_or (each_ext qs (λ q. fold_or_of_perm (perm-items h q)))
slice_qmatches_of_perm h (not q) = fold_and_of_perm (perm-items h (not q))
slice_qmatches_of_perm h (pattern p) = fold_or_of_perm (perm-items h (pattern p))
slice_qmatches_of_perm h (field_pattern field q) =
    fold_or_of_perm (perm-items h (field_pattern field q))
