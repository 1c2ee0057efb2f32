-- ===== src/Query/MatchResult.antt =====
-- `MatchResult` of query-parser/src/lib.rs and its operators.
use funtonic.Base.{Bool, true, false, ◌||◌, if◌then◌else◌}

pub data MatchResult : Type 0 where
  match no_match rejected : MatchResult

unfoldable pub matches : MatchResult → Bool
matches match = true
matches _ = false

-- `!`
unfoldable pub not : MatchResult → MatchResult
not match = rejected
not no_match = match
not rejected = match

-- `&`
unfoldable pub bit_and : MatchResult → MatchResult → MatchResult
bit_and match match = match
bit_and match no_match = no_match
bit_and match rejected = rejected
bit_and no_match match = no_match
bit_and no_match no_match = no_match
bit_and no_match rejected = rejected
bit_and rejected rhs = rejected

-- `|`
unfoldable pub bit_or : MatchResult → MatchResult → MatchResult
bit_or match rhs = match
bit_or no_match rhs = rhs
bit_or rejected match = match
bit_or rejected _ = rejected

-- `==`
unfoldable pub eq : MatchResult → MatchResult → Bool
eq match match = true
eq no_match no_match = true
eq rejected rejected = true
eq _ _ = false

-- `^`: a rejection on either side wins over a match on the other.
unfoldable pub bit_xor : MatchResult → MatchResult → MatchResult
unfolding eq bit_or
bit_xor lhs rhs = if eq lhs rejected || eq rhs rejected then rejected else bit_or lhs rhs

-- `From<bool>`
unfoldable pub from_bool : Bool → MatchResult
from_bool boolean = if boolean then match else no_match
