-- ===== src/ExecutorMeta/Proto.antt =====
-- The protobuf tags of grpc-service/proto/tasks/tasks.proto, and the conversions of
-- common/src/executor_meta.rs between them and `Tag`.
use funtonic.Base.{String, Bool, true, false, ◌||◌, ◌≡◌, ◌↔◌, refl, Option, none, some, arith}
use funtonic.ExecutorMeta.{Tag, TagMap, TagList}

-- `grpc_protocol::Tag`: a message whose `oneof` may be unset.
mutual
  pub data ProtoTag : Type 0 where
    unset : ProtoTag
    value : String → ProtoTag
    value_map : ValueMap → ProtoTag
    value_list : ValueList → ProtoTag

  pub data ValueMap : Type 0 where
    empty : ValueMap
    entry : String → ProtoTag → ValueMap → ValueMap

  pub data ValueList : Type 0 where
    nil : ValueList
    cons : ProtoTag → ValueList → ValueList

-- `impl From<&Tag> for grpc_protocol::Tag`. The keys of a map are distinct, so that collecting the
-- converted entries keeps them all.
unfoldable mutual
  pub to_proto : Tag → ProtoTag
  to_proto (Tag.map m) = value_map (to_value_map m)
  to_proto (Tag.list l) = value_list (to_value_list l)
  to_proto (Tag.value v) = value v

  pub to_value_map : TagMap → ValueMap
  to_value_map TagMap.empty = empty
  to_value_map (TagMap.entry k t m) = entry k (to_proto t) (to_value_map m)

  pub to_value_list : TagList → ValueList
  to_value_list TagList.nil = nil
  to_value_list (TagList.cons t l) = cons (to_proto t) (to_value_list l)

infixl 5 ◌>>=◌
abbrev ◌>>=◌ : {A B : Type 0} → Option A → (A → Option B) → Option B
none >>= f = none
some a >>= f = f a

-- `impl From<&grpc_protocol::Tag> for Tag`: `none` is the panic of `t.tag.as_ref().unwrap()`.
unfoldable mutual
  pub from_proto : ProtoTag → Option Tag
  from_proto unset = none
  from_proto (value v) = some (Tag.value v)
  from_proto (value_map m) = do r ← from_value_map m; some (Tag.map r)
  from_proto (value_list l) = do r ← from_value_list l; some (Tag.list r)

  pub from_value_map : ValueMap → Option TagMap
  from_value_map empty = some TagMap.empty
  from_value_map (entry k p m) = do
    t ← from_proto p
    r ← from_value_map m
    some (TagMap.entry k t r)

  pub from_value_list : ValueList → Option TagList
  from_value_list nil = some TagList.nil
  from_value_list (cons p l) = do t ← from_proto p; r ← from_value_list l; some (TagList.cons t r)

mutual
  unfolding to_proto from_proto

  from_to : (t : Tag) → from_proto (to_proto t) ≡ some t
  from_to (Tag.map m) = rw (from_to_map m)
  from_to (Tag.list l) = rw (from_to_list l)
  from_to (Tag.value v) = refl

  pub from_to_map : (m : TagMap) → from_value_map (to_value_map m) ≡ some m
  from_to_map TagMap.empty = refl
  from_to_map (TagMap.entry k t m) = rw (from_to t, from_to_map m)

  from_to_list : (l : TagList) → from_value_list (to_value_list l) ≡ some l
  from_to_list TagList.nil = refl
  from_to_list (TagList.cons t l) = rw (from_to t, from_to_list l)

-- A tag that was sent as a protobuf message is read back as it was.
pub from_proto-to_proto : (t : Tag) → from_proto (to_proto t) ≡ some t
from_proto-to_proto t = from_to t

-- A message with no value set, at any depth.
unfoldable mutual
  pub has_unset : ProtoTag → Bool
  has_unset unset = true
  has_unset (value v) = false
  has_unset (value_map m) = has_unset_map m
  has_unset (value_list l) = has_unset_list l

  pub has_unset_map : ValueMap → Bool
  has_unset_map empty = false
  has_unset_map (entry k p m) = has_unset p || has_unset_map m

  pub has_unset_list : ValueList → Bool
  has_unset_list nil = false
  has_unset_list (cons p l) = has_unset p || has_unset_list l

mutual
  unfolding from_proto has_unset

  panics : (p : ProtoTag) → (from_proto p ≡ none) ↔ (has_unset p ≡ true)
  panics unset = ground arith
  panics (value v) = ground arith
  panics (value_map m) = ground (arith, panics_map m)
  panics (value_list l) = ground (arith, panics_list l)

  panics_map : (m : ValueMap) → (from_value_map m ≡ none) ↔ (has_unset_map m ≡ true)
  panics_map empty = ground arith
  panics_map (entry k p m) = ground (arith, panics p, panics_map m)

  panics_list : (l : ValueList) → (from_value_list l ≡ none) ↔ (has_unset_list l ≡ true)
  panics_list nil = ground arith
  panics_list (cons p l) = ground (arith, panics p, panics_list l)

-- Reading a message panics exactly when some tag in it, at any depth, has no value set.
pub from_proto-eq-none_iff : (p : ProtoTag) → (from_proto p ≡ none) ↔ (has_unset p ≡ true)
from_proto-eq-none_iff p = panics p
