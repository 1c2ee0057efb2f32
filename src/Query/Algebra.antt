-- ===== src/Query/Algebra.antt =====
-- The operators of `MatchResult` against the order that each of them follows.
use mathlib.Core.Bool
use Prim.Native.Nat.{min, max}
use funtonic.Base.{ℕ, ◌≡◌, refl, ◌&&◌, ◌||◌, arith}
use funtonic.Query.MatchResult.{
  MatchResult, match, no_match, rejected, matches, not, bit_and, bit_or, bit_xor,
}

-- The three orders: `&` takes the lower result, `|` and `^` the higher.
abbrev pub and_rank : MatchResult → ℕ
and_rank rejected = 0
and_rank no_match = 1
and_rank match = 2

abbrev pub or_rank : MatchResult → ℕ
or_rank no_match = 0
or_rank rejected = 1
or_rank match = 2

abbrev pub xor_rank : MatchResult → ℕ
xor_rank no_match = 0
xor_rank match = 1
xor_rank rejected = 2

-- `&` is the minimum of rejected < no_match < match, `|` the maximum of no_match < rejected < match
-- and `^` the maximum of no_match < match < rejected.
pub operators-rank :
    (a b : MatchResult)
    → (and_rank (bit_and a b) ≡ min (and_rank a) (and_rank b))
      × (or_rank (bit_or a b) ≡ max (or_rank a) (or_rank b))
      × (xor_rank (bit_xor a b) ≡ max (xor_rank a) (xor_rank b))
unfolding bit_and bit_or bit_xor
operators-rank match match = (refl, refl, refl)
operators-rank match no_match = (refl, refl, refl)
operators-rank match rejected = (refl, refl, refl)
operators-rank no_match match = (refl, refl, refl)
operators-rank no_match no_match = (refl, refl, refl)
operators-rank no_match rejected = (refl, refl, refl)
operators-rank rejected match = (refl, refl, refl)
operators-rank rejected no_match = (refl, refl, refl)
operators-rank rejected rejected = (refl, refl, refl)

pub matches-not : (a : MatchResult) → matches (not a) ≡ Bool.not (matches a)
unfolding matches not
matches-not a = ground arith

pub matches-and : (a b : MatchResult) → matches (bit_and a b) ≡ (matches a && matches b)
unfolding matches bit_and
matches-and a b = ground arith

pub matches-or : (a b : MatchResult) → matches (bit_or a b) ≡ (matches a || matches b)
unfolding matches bit_or
matches-or a b = ground arith
