-- ===== src/Executor/Registration.antt =====
-- `impl TryFrom<&ExecutorConfig> for GetTasksRequest` of common/src/executor_meta.rs: what an executor
-- tells the task server about itself.
use mathlib.Core.List.{Forall₂}
use funtonic.Base.{
  String, ◌≡◌, sym, refl, ◌==◌, Option, none, some, List, [], ◌∷◌, Result, ok, ◌>>=◌, and_then_ok,
  ok-injective, if◌then◌else◌,
}
use funtonic.Base.HashMap.{HashMap}
use funtonic.Config.Tls.{TlsConfig}
use funtonic.Crypto.Library.{Base64}
use funtonic.ExecutorMeta.{Tag, TagMap, empty, entry}
use funtonic.ExecutorMeta.Interfaces.{Info, Interface, tag_of_info, tag_of_interfaces}
use funtonic.ExecutorMeta.Proto.{to_value_map, from_to_map}
use funtonic.TaskServer.Protocol.{GetTasksRequest, PublicKey}
use funtonic.TaskServer.Registry.{meta_of_request}

-- `ExecutorConfig` of common/src/config.rs.
pub record ExecutorConfig : Type 0 where
  pub tls : Option TlsConfig
  pub server_url : String
  pub client_id : String
  pub tags : TagMap
  pub authorized_keys : HashMap String

unfoldable pub insert_tag : String → Tag → TagMap → TagMap
insert_tag k t empty = entry k t empty
insert_tag k t (entry j u m) = if j == k then entry j t m else entry j u (insert_tag k t m)

-- `extend`
unfoldable pub extend : TagMap → TagMap → TagMap
unfolding insert_tag
extend m empty = m
extend m (entry k t more) = extend (insert_tag k t m) more

-- The Saltstack grains, if there are any, the information about the system and the interfaces.
unfoldable pub all_tags : Option TagMap → Tag → Tag → TagMap → TagMap
unfolding extend
all_tags none os_info interfaces tags =
    insert_tag "network_interfaces" interfaces (insert_tag "os_info" os_info tags)
all_tags (some grains) os_info interfaces tags =
    insert_tag "network_interfaces" interfaces (insert_tag "os_info" os_info (extend tags grains))

unfoldable pub decode_keys : Base64 → HashMap String → Result (List PublicKey) String
decode_keys base64 [] = ok []
decode_keys base64 ((id, key) ∷ keys) = do
  bytes ← base64.decode key
  more ← decode_keys base64 keys
  ok (record { key_id = id; key_bytes = bytes } ∷ more)

-- `version` is that of the library; the interfaces are asked of the system, which may fail.
unfoldable pub get_tasks_request :
    Base64
    → String
    → String
    → Option TagMap
    → Info
    → Result (List Interface) String
    → ExecutorConfig
    → Result GetTasksRequest String
unfolding all_tags decode_keys tag_of_info tag_of_interfaces
get_tasks_request base64 version protocol_version grains os_info interfaces config = do
  found ← interfaces
  keys ← decode_keys base64 config.authorized_keys
  ok (record {
    client_id = config.client_id;
    client_version = version;
    tags =
        to_value_map (all_tags grains (tag_of_info os_info) (tag_of_interfaces found) config.tags);
    client_protocol_version = protocol_version;
    authorized_keys = keys;
  })

-- The decoded key stands under the same id.
pub Decodes : Base64 → String × String → PublicKey → Type 0
Decodes base64 (id, key) decoded =
    (id ≡ decoded.key_id) × (base64.decode key ≡ ok decoded.key_bytes)

decode_keys_ok :
    (base64 : Base64) (keys : HashMap String) (decoded : List PublicKey)
    → decode_keys base64 keys ≡ ok decoded
    → Forall₂ (Decodes base64) keys decoded
unfolding decode_keys Decodes
decode_keys_ok base64 [] decoded h = rw (sym (ok-injective [] decoded h)) Forall₂.nil
decode_keys_ok base64 ((id, key) ∷ keys) decoded h =
    let (bytes, read, h₁) = and_then_ok (base64.decode key) _ decoded h in
    let (more, rest, h₂) = and_then_ok (decode_keys base64 keys) _ decoded h₁ in
    rw (sym (ok-injective _ decoded h₂))
      (Forall₂.cons (refl, read) (decode_keys_ok base64 keys more rest))

-- If an executor's request is made, the task server reads from it, without a panic, the executor's
-- id, the library's version and all its tags, the interfaces those that the system told; and it
-- holds each authorized key of the configuration, decoded, in their order.
pub meta_of_request-get_tasks_request :
    (base64 : Base64) (version protocol_version : String) (grains : Option TagMap) (os_info : Info)
    (interfaces : Result (List Interface) String) (config : ExecutorConfig)
    (request : GetTasksRequest)
    → get_tasks_request base64 version protocol_version grains os_info interfaces config
      ≡ ok request
    → (found : List Interface) × (interfaces ≡ ok found)
      × (meta_of_request request
          ≡ some (record {
            client_id = config.client_id;
            version = version;
            tags = all_tags grains (tag_of_info os_info) (tag_of_interfaces found) config.tags;
          }))
      × Forall₂ (Decodes base64) config.authorized_keys request.authorized_keys
unfolding get_tasks_request meta_of_request
meta_of_request-get_tasks_request base64 version protocol_version grains os_info interfaces config
      request h =
    let (found, told, h₁) = and_then_ok interfaces _ request h in
    let (keys, decoded, h₂) =
      and_then_ok (decode_keys base64 config.authorized_keys) _ request h₁ in
    let tags = all_tags grains (tag_of_info os_info) (tag_of_interfaces found) config.tags in
    rw (sym (ok-injective _ request h₂)) (
      found,
      told,
      rw (from_to_map tags),
      decode_keys_ok base64 config.authorized_keys keys decoded,
    )
