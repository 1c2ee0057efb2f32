-- ===== src/Query/Folds.antt =====
-- What the three folds over results compute.
use mathlib.Core.Bool
use mathlib.Core.List.{foldl}
use funtonic.Base.{
  ◌≡◌, Bool, true, false, ◌&&◌, ◌||◌, List, [], ◌∷◌, arith, all, any, if◌then◌else◌,
}
use funtonic.Query.MatchResult.{
  MatchResult, match, no_match, rejected, matches, bit_and, bit_or, bit_xor,
}
use funtonic.Query.Matcher.{fold_and, fold_or, fold_xor}

abbrev pub is_rejected : MatchResult → Bool
is_rejected rejected = true
is_rejected _ = false

-- The result that a fold gives, from what it has met on the way.
abbrev pub and_summary : Bool → Bool → MatchResult
and_summary all_match some_rejected =
    if some_rejected then rejected else if all_match then match else no_match

abbrev pub or_summary : Bool → Bool → MatchResult
or_summary some_match some_rejected =
    if some_match then match else if some_rejected then rejected else no_match

abbrev pub xor_summary : Bool → Bool → MatchResult
xor_summary some_match some_rejected =
    if some_rejected then rejected else if some_match then match else no_match

foldl-and :
    (m : MatchResult) (rs : List MatchResult)
    → foldl bit_and m rs
      ≡ and_summary (matches m && all rs matches) (is_rejected m || any rs is_rejected)
unfolding bit_and matches
foldl-and match [] = ground arith
foldl-and no_match [] = ground arith
foldl-and rejected [] = ground arith
foldl-and m (r ∷ rs) = ground (arith, foldl-and (bit_and m r) rs)

foldl-or :
    (m : MatchResult) (rs : List MatchResult)
    → foldl bit_or m rs
      ≡ or_summary (matches m || any rs matches) (is_rejected m || any rs is_rejected)
unfolding bit_or matches
foldl-or m [] = ground arith
foldl-or m (r ∷ rs) = ground (arith, foldl-or (bit_or m r) rs)

foldl-xor :
    (m : MatchResult) (rs : List MatchResult)
    → foldl bit_xor m rs
      ≡ xor_summary (matches m || any rs matches) (is_rejected m || any rs is_rejected)
unfolding bit_xor matches
foldl-xor m [] = ground arith
foldl-xor m (r ∷ rs) = ground (arith, foldl-xor (bit_xor m r) rs)

-- A fold by `&` is rejected when it meets a rejection, and otherwise matches when every result
-- does. A fold by `|` matches when some result does, and otherwise is rejected when some result is.
-- A fold by `^` is rejected when some result is, and otherwise matches when some result does.
pub folds_lem :
    (rs : List MatchResult)
    → (fold_and rs ≡ and_summary (all rs matches) (any rs is_rejected))
      × (fold_or rs ≡ or_summary (any rs matches) (any rs is_rejected))
      × (fold_xor rs ≡ xor_summary (any rs matches) (any rs is_rejected))
unfolding fold_and fold_or fold_xor matches
folds_lem rs = (foldl-and match rs, foldl-or no_match rs, foldl-xor no_match rs)

all-matches_of_rejected :
    (rs : List MatchResult) → any rs is_rejected ≡ true → all rs matches ≡ false
unfolding matches
all-matches_of_rejected [] h = ground arith
all-matches_of_rejected (r ∷ rs) h = ground (arith, all-matches_of_rejected rs)

pub matches-fold_and : (rs : List MatchResult) → matches (fold_and rs) ≡ all rs matches
unfolding matches
matches-fold_and rs = ground (arith, folds_lem rs, all-matches_of_rejected rs)

pub matches-fold_or : (rs : List MatchResult) → matches (fold_or rs) ≡ any rs matches
unfolding matches
matches-fold_or rs = ground (arith, folds_lem rs)

pub matches-fold_xor :
    (rs : List MatchResult)
    → matches (fold_xor rs) ≡ (any rs matches && Bool.not (any rs is_rejected))
unfolding matches
matches-fold_xor rs = ground (arith, folds_lem rs)
