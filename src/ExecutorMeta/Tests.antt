-- ===== src/ExecutorMeta/Tests.antt =====
-- Runs of common/src/executor_meta.rs taken from its tests, and the theorems at that executor.
use funtonic.Base.{◌≡◌, ◌↔◌, refl, true, false, some, none, [], ◌∷◌}
use funtonic.Query.{Query, Queries, pattern, field_pattern, and, or, not, nil, cons}
use funtonic.Query.MatchResult.{matches, from_bool}
use funtonic.Query.Matcher.{fold_and}
use funtonic.ExecutorMeta.{Tag, TagMap, TagList, ExecutorMeta, tag_qmatches, qmatches}
use funtonic.ExecutorMeta.Addresses.{if_type}
use funtonic.ExecutorMeta.Interfaces.{addresses_of, addresses, address, collect, addresses-collect}
use funtonic.ExecutorMeta.Samples.{interfaces}
use funtonic.ExecutorMeta.Proto.{
  ProtoTag, ValueMap, to_proto, from_proto, has_unset, from_proto-to_proto, from_proto-eq-none_iff,
}
use funtonic.ExecutorMeta.Selection.{meta_holds, is_simple, qmatches-holds}
use funtonic.ExecutorMeta.Nesting.{some_clause, is_negated, qmatches-or_negated, qmatches-not_mixed}
use funtonic.Query.MatchResult

abbrev roles : Tag
roles = Tag.list (TagList.cons (Tag.value "foo") (TagList.cons (Tag.value "bar") TagList.nil))

abbrev os : Tag
os = Tag.map (
    TagMap.entry "type" (Tag.value "Linux")
      (TagMap.entry "version" (Tag.value "18.04") TagMap.empty))

abbrev siderant : ExecutorMeta
siderant = record {
  client_id = "siderant";
  version = "0.0.1";
  tags =
      TagMap.entry "env" (Tag.value "prod")
        (TagMap.entry "roles" roles (TagMap.entry "os" os TagMap.empty));
}

-- env:prod and siderant
abbrev both : Queries
both = cons (field_pattern "env" (pattern "prod")) (cons (pattern "siderant") nil)

-- env:prod and !siderant
abbrev not_siderant : Query
not_siderant =
    and (cons (field_pattern "env" (pattern "prod")) (cons (not (pattern "siderant")) nil))

nested_field :
    matches (qmatches siderant (field_pattern "os" (field_pattern "type" (pattern "Linux")))) ≡ true
unfolding qmatches tag_qmatches fold_and from_bool MatchResult.not matches
nested_field = refl

listed_role : matches (qmatches siderant (field_pattern "roles" (pattern "bar"))) ≡ true
unfolding qmatches tag_qmatches fold_and from_bool MatchResult.not matches
listed_role = refl

both_match : matches (qmatches siderant (and both)) ≡ true
unfolding qmatches tag_qmatches fold_and from_bool MatchResult.not matches
both_match = refl

excluded : matches (qmatches siderant not_siderant) ≡ false
unfolding qmatches tag_qmatches fold_and from_bool MatchResult.not matches
excluded = refl

qmatches-holds_example : matches (qmatches siderant not_siderant) ≡ meta_holds siderant not_siderant
unfolding is_simple
qmatches-holds_example = qmatches-holds siderant not_siderant refl

qmatches-or_negated_example :
    matches (qmatches siderant (or (cons (pattern "foo") (cons (not (pattern "siderant")) nil))))
    ≡ true
unfolding some_clause is_negated
qmatches-or_negated_example =
    qmatches-or_negated siderant (cons (pattern "foo") (cons (not (pattern "siderant")) nil)) refl

qmatches-not_mixed_example : matches (qmatches siderant (not (and both))) ≡ true
unfolding some_clause is_negated
qmatches-not_mixed_example = qmatches-not_mixed siderant both refl

from_proto-to_proto_example : from_proto (to_proto os) ≡ some os
from_proto-to_proto_example = from_proto-to_proto os

abbrev hollow : ProtoTag
hollow = ProtoTag.value_map (ValueMap.entry "env" ProtoTag.unset ValueMap.empty)

from_proto-eq-none_iff_example : (from_proto hollow ≡ none) ↔ (has_unset hollow ≡ true)
from_proto-eq-none_iff_example = from_proto-eq-none_iff hollow

eth0_addresses :
    addresses_of "lan" "eth0" interfaces
    ≡ (("ip", "192.168.1.42") ∷ ("netmask", "255.255.255.0") ∷ ("broadcast", "192.168.1.255") ∷ [])
      ∷ (("ip", "10.0.0.7") ∷ ("netmask", "255.255.255.0") ∷ [])
      ∷ []
unfolding addresses_of if_type address
eth0_addresses = refl

addresses-collect_example :
    addresses "lan" "eth0" (collect [] interfaces) ≡ addresses_of "lan" "eth0" interfaces
addresses-collect_example = addresses-collect "lan" "eth0" interfaces
