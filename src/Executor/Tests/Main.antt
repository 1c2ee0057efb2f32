-- ===== src/Executor/Tests/Main.antt =====
-- Two rounds of `main` of executor/src/main.rs, and the theorem for the first.
use funtonic.Base.{
  String, ◌≡◌, refl, ap, sym, Bool-cases, inl, inr, Bool, true, false, ◌&&◌, ◌==◌, eq_iff, Option,
  none, some, [], ◌∷◌, ok, err, arith, if◌then◌else◌,
}
use funtonic.Base.HashMap.{HashMap}
use funtonic.Crypto.Samples.{toy_ring, toy_base64}
use funtonic.Crypto.SignedPayload.{Ed25519Key}
use funtonic.ExecutorMeta.{TagMap}
use funtonic.Config.Files.{PathBuf, pop, Files, Yaml, IsYaml}
use funtonic.Executor.Connection.{ended, add_key}
use funtonic.Executor.Registration.{ExecutorConfig}
use funtonic.Config.Tls.{TlsConfig}
use funtonic.Executor.Main.{Machine, Surroundings, start, main_round, saved}
use funtonic.Executor.Restart.{main_round-start}
use funtonic.Executor.Restart.Ending.{Ended}

abbrev with : HashMap String → ExecutorConfig
with keys = record {
  tls = none;
  server_url = "http://localhost";
  client_id = "host";
  tags = TagMap.empty;
  authorized_keys = keys;
}

abbrev before : ExecutorConfig
before = with []

abbrev after : ExecutorConfig
after = with (("boss", "AQI=") ∷ [])

abbrev new_key : Ed25519Key
new_key = record { id = "host"; pkcs8 = "AQI="; public_key = some "AQI=" }

-- The YAML of one configuration and of one key; nothing else can be written.
same_config : Option TlsConfig → String → String → TagMap → HashMap String → Bool
same_config none url id TagMap.empty ((j, text) ∷ []) =
    url == "http://localhost" && id == "host" && j == "boss" && text == "AQI="
same_config _ _ _ _ _ = false

same_key : String → String → Option String → Bool
same_key id pkcs8 (some public) = id == "host" && pkcs8 == "AQI=" && public == "AQI="
same_key id pkcs8 none = false

config_yaml : Yaml ExecutorConfig
unfolding same_config
config_yaml = record {
  from_reader = λ text.
      if text == "before" then ok before else if text == "after" then ok after else err "no YAML";
  to_writer = λ c.
      if same_config c.tls c.server_url c.client_id c.tags c.authorized_keys
      then (ok tt, "after")
      else (err "not written", "");
}

key_yaml : Yaml Ed25519Key
unfolding same_key
key_yaml = record {
  from_reader = λ text. if text == "key" then ok new_key else err "no YAML";
  to_writer =
      λ k. if same_key k.id k.pkcs8 k.public_key then (ok tt, "key") else (err "not written", "");
}

same_key_lem :
    (id pkcs8 : String) (public : Option String)
    → same_key id pkcs8 public ≡ true
    → record { id = id; pkcs8 = pkcs8; public_key = public } ≡ new_key
unfolding same_key
same_key_lem id pkcs8 (some public) h =
    ground (arith, eq_iff id "host", eq_iff pkcs8 "AQI=", eq_iff public "AQI=")
same_key_lem id pkcs8 none h = ground arith

key_yaml-IsYaml : IsYaml key_yaml
unfolding key_yaml
key_yaml-IsYaml = record {
  from_reader-to_writer = λ k written. elim (Bool-cases (same_key k.id k.pkcs8 k.public_key)) [
    | inr other ↦ ground arith
    | inl same ↦ rw same (ap ok (sym (same_key_lem k.id k.pkcs8 k.public_key same)))
  ];
}

same_config_lem :
    (tls : Option TlsConfig) (url id : String) (tags : TagMap) (keys : HashMap String)
    → same_config tls url id tags keys ≡ true
    → record { tls = tls; server_url = url; client_id = id; tags = tags; authorized_keys = keys }
      ≡ after
unfolding same_config
same_config_lem none url id TagMap.empty ((j, text) ∷ []) h =
    ground
      (arith, eq_iff url "http://localhost", eq_iff id "host", eq_iff j "boss", eq_iff text "AQI=")
same_config_lem none url id TagMap.empty ((j, text) ∷ (k ∷ ks)) h = ground arith
same_config_lem none url id TagMap.empty [] h = ground arith
same_config_lem none url id (TagMap.entry n t m) keys h = ground arith
same_config_lem (some c) url id tags keys h = ground arith

config_yaml-IsYaml : IsYaml config_yaml
unfolding config_yaml
config_yaml-IsYaml = record {
  from_reader-to_writer = λ c written.
      elim (Bool-cases (same_config c.tls c.server_url c.client_id c.tags c.authorized_keys)) [
        | inr other ↦ ground arith
        | inl same ↦ rw same (
            ap ok
              (sym (same_config_lem c.tls c.server_url c.client_id c.tags c.authorized_keys same)))
      ];
}

abbrev machine : Machine
machine = record {
  base64 = toy_base64;
  ring = toy_ring;
  locations = record {
    home = ".funtonic" ∷ "root" ∷ "/" ∷ [];
    etc = "funtonic" ∷ "etc" ∷ "/" ∷ [];
  };
  config_yaml = config_yaml;
  key_yaml = key_yaml;
  expand = λ text. text ∷ [];
  uri = λ url. ok tt;
  tls_config = λ c. ok tt;
}

-- A key is authorized in the first round.
abbrev first : Surroundings
first = record {
  permissions = record { readable = λ p. true; writable = λ p. true };
  pair = some (1 ∷ [], 2 ∷ []);
  outcomes = λ key store. ended (add_key "boss" (1 ∷ 2 ∷ [])) ∷ [];
}

abbrev config_path : PathBuf
config_path = "executor.yml" ∷ "funtonic" ∷ "etc" ∷ "/" ∷ []

abbrev key_path : PathBuf
key_path = "executor_ed25519_key.yml" ∷ "funtonic" ∷ "etc" ∷ "/" ∷ []

abbrev files : Files
files = (config_path, "before") ∷ []

first_round : main_round machine none first files ≡ (
  ok (saved (ok tt)),
  (config_path, "after") ∷ (key_path, "key") ∷ (config_path, "before") ∷ [],
)
unfolding main_round config_yaml key_yaml same_config same_key pop
first_round = refl

main_round-start_example :
    (config : ExecutorConfig) × (path : PathBuf) × (key : Ed25519Key) × (changed : ExecutorConfig)
    × ((start machine none first files).0 ≡ ok (config, path, key))
    × Ended machine none first config key changed
    × (start machine none first (main_round machine none first files).1
        ≡ (ok (changed, path, key), (main_round machine none first files).1))
main_round-start_example =
    main_round-start machine none tt first key_yaml-IsYaml config_yaml-IsYaml first (λ p. refl)
      files (ap (λ r. r.0) first_round)
