-- ===== src/ExecutorMeta.antt =====
-- common/src/executor_meta.rs: what an executor tells about itself, and how queries select it.
pub mod Addresses
pub mod Interfaces
pub mod Samples
pub mod Proto
pub mod Selection
pub mod Nesting
mod Tests
use funtonic.Base.{String, Option, List, [], ◌∷◌, ◌==◌, some, none, if◌then◌else◌}
use funtonic.Base.HashMap.{HashMap}
use funtonic.Query.{Query}
use funtonic.Query.MatchResult.{MatchResult}
use funtonic.Query.Matcher.{Matcher, str_qmatches, map_qmatches, slice_qmatches}

mutual
  pub data Tag : Type 0 where
    map : TagMap → Tag
    list : TagList → Tag
    value : String → Tag

  -- `HashMap<String, Tag>`
  pub data TagMap : Type 0 where
    empty : TagMap
    entry : String → Tag → TagMap → TagMap

  -- `Vec<Tag>`
  pub data TagList : Type 0 where
    nil : TagList
    cons : Tag → TagList → TagList

pub record ExecutorMeta : Type 0 where
  pub client_id : String
  pub version : String
  pub tags : TagMap

-- `impl QueryMatcher for Tag`, with the matchers of what a tag holds.
unfoldable mutual
  pub tag_qmatches : Tag → Query → MatchResult
  tag_qmatches (map m) = map_qmatches (entry_matchers m)
  tag_qmatches (list l) = slice_qmatches (item_matchers l)
  tag_qmatches (value v) = str_qmatches v

  pub entry_matchers : TagMap → HashMap Matcher
  entry_matchers empty = []
  entry_matchers (entry k t m) = (k, tag_qmatches t) ∷ entry_matchers m

  pub item_matchers : TagList → List Matcher
  item_matchers nil = []
  item_matchers (cons t l) = tag_qmatches t ∷ item_matchers l

pub data TagRef : Type 0 where
  map : TagMap → TagRef
  value : String → TagRef

-- `impl QueryMatcher for TagRef`
unfoldable pub tag_ref_qmatches : TagRef → Query → MatchResult
unfolding entry_matchers map_qmatches str_qmatches
tag_ref_qmatches (map m) = map_qmatches (entry_matchers m)
tag_ref_qmatches (value v) = str_qmatches v

-- `impl QueryMatcher for ExecutorMeta`
unfoldable pub qmatches : ExecutorMeta → Query → MatchResult
unfolding tag_ref_qmatches slice_qmatches
qmatches meta =
    slice_qmatches (tag_ref_qmatches (value meta.client_id) ∷ tag_ref_qmatches (map meta.tags) ∷ [])

-- `tags.get(field)`
unfoldable pub get_tag : String → TagMap → Option Tag
get_tag k empty = none
get_tag k (entry j t m) = if j == k then some t else get_tag k m
