-- ===== src/Query.antt =====
-- The query language of query-parser/src/lib.rs.
pub mod Parser
pub mod MatchResult
pub mod Algebra
pub mod Matcher
pub mod Folds
pub mod Boolean
pub mod Slice
pub mod Order
mod Tests
use funtonic.Base.{String, List, [], ◌∷◌}

mutual
  pub data Query : Type 0 where
    pattern : String → Query
    field_pattern : String → Query → Query
    wildcard : Query
    and : Queries → Query
    or : Queries → Query
    not : Query → Query

  -- `Vec<Query>`
  pub data Queries : Type 0 where
    nil : Queries
    cons : Query → Queries → Queries

-- The clauses of a vector, each taken to a result.
unfoldable pub each {ℓ} : {A : Type ℓ} → (Query → A) → Queries → List A
each f nil = []
each f (cons q qs) = f q ∷ each f qs
