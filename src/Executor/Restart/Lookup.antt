-- ===== src/Executor/Restart/Lookup.antt =====
-- The lookups at the start of a round of `main` of executor/src/main.rs, by common/src/config.rs.
use funtonic.Base.{
  String, ◌≡◌, refl, ap, ◌∙◌, true, false, Option, none, some, List, [], ◌∷◌, Result, ok, arith,
  All, All-map, inl, inr, Result-cases,
}
use funtonic.Config.Files.{
  PathBuf, pop, Files, content, exists, exists-again, is_there, parse_yaml_from_file,
}
use funtonic.Config.Location.{
  candidates, first_existing, or_no_config, resolve_config_path, DefaultLocations, parse,
  ConfigError, get_config_directory,
}
use funtonic.Crypto.SignedPayload.{Ed25519Key}
use funtonic.Executor.Registration.{ExecutorConfig}
use funtonic.Executor.Main.{
  config_name, Machine, Surroundings, start, read_key, get_signing_key, get_key_path,
}
use funtonic.Executor.Restart.KeyFile.{is_key_file}

pub first_existing_same :
    (files after : Files) (ps : List PathBuf)
    → All (λ p. exists p after ≡ exists p files) ps
    → first_existing after ps ≡ first_existing files ps
unfolding first_existing
first_existing_same files after [] h = refl
first_existing_same files after (p ∷ ps) (e, h) = rw (e, first_existing_same files after ps h) refl

pub first_existing-some :
    (files : Files) (ps : List PathBuf) (q : PathBuf)
    → All (λ p. is_key_file p ≡ false) ps
    → first_existing files ps ≡ some q
    → (is_key_file q ≡ false) × (exists q files ≡ true)
unfolding first_existing
first_existing-some files [] q named h = ground arith
first_existing-some files (p ∷ ps) q (name, named) h =
    ground (arith, first_existing-some files ps q named)

abbrev pub NotKeyFile : Option PathBuf → Type 0
NotKeyFile none = Unit
NotKeyFile (some p) = is_key_file p ≡ false

pub candidates_named :
    (locations : DefaultLocations) (provided : Option PathBuf)
    → NotKeyFile provided
    → All (λ p. is_key_file p ≡ false) (candidates locations provided config_name)
unfolding candidates is_key_file
candidates_named locations none _ = (refl, (refl, tt))
candidates_named locations (some p) named = (named, (refl, (refl, tt)))

pub resolve_some :
    (name : String) (found : Option PathBuf) (p : PathBuf)
    → or_no_config name found ≡ ok p
    → found ≡ some p
unfolding or_no_config
resolve_some name none p h = ground arith
resolve_some name (some q) p h = ground arith

module _ (M : Machine) (provided : Option PathBuf) (s : Surroundings) where
  abbrev pub found : Files → Result PathBuf ConfigError
  found files = resolve_config_path M.locations provided config_name files

  unfoldable pub Started : Files → ExecutorConfig → PathBuf → Ed25519Key → Type 0
  Started files config path key =
      (found files ≡ ok path)
      × (parse_yaml_from_file s.permissions M.config_yaml path files ≡ ok config)
      × (start M provided s files ≡ (
        ok (config, path, key),
        (get_signing_key M s config (get_key_path (pop path)) files).1,
      ))
      × ((get_signing_key M s config (get_key_path (pop path)) files).0 ≡ ok key)

  pub start_ok :
      (files : Files) (config : ExecutorConfig) (path : PathBuf) (key : Ed25519Key)
      → (start M provided s files).0 ≡ ok (config, path, key)
      → Started files config path key
  unfolding start parse Started get_config_directory
  start_ok files config path key h =
      elim (Result-cases (found files)) as (λ _. Started files config path key) [
        | inr (e, missing) ↦ ground arith
        | inl (p, there) ↦
            elim (Result-cases (parse_yaml_from_file s.permissions M.config_yaml p files))
              as (λ _. Started files config path key) [
                | inr (e, unread) ↦ ground arith
                | inl (c, read) ↦
                    elim (Result-cases (get_signing_key M s c (get_key_path (pop p)) files).0)
                      as (λ _. Started files config path key) [
                        | inr (e, keyless) ↦ ground arith
                        | inl (k, has) ↦ ground arith
                      ]
              ]
      ]

module _ (M : Machine) (provided : Option PathBuf) where
  pub start_ready :
      (s : Surroundings) (files : Files) (config : ExecutorConfig) (path : PathBuf)
      (key : Ed25519Key)
      → found M provided s files ≡ ok path
      → parse_yaml_from_file s.permissions M.config_yaml path files ≡ ok config
      → exists (get_key_path (pop path)) files ≡ true
      → parse_yaml_from_file s.permissions M.key_yaml (get_key_path (pop path)) files ≡ ok key
      → start M provided s files ≡ (ok (config, path, key), files)
  unfolding start parse get_config_directory get_signing_key read_key
  start_ready s files config path key located read there key_read = ground arith

module _ (M : Machine) (provided : Option PathBuf) (named : NotKeyFile provided)
    (s : Surroundings) where
  -- The configuration is found where it was, if it is written again and only the key's file has changed.
  pub found_again :
      (files after : Files) (path : PathBuf) (text : String)
      → found M provided s files ≡ ok path
      → ((p : PathBuf) → is_key_file p ≡ false → content p after ≡ content p files)
      → (is_key_file path ≡ false) × (found M provided s ((path, text) ∷ after) ≡ ok path)
  unfolding resolve_config_path or_no_config exists
  found_again files after path text located kept =
      let ps : List PathBuf = candidates M.locations provided config_name in
      let all = candidates_named M.locations provided named in
      let first = resolve_some config_name (first_existing files ps) path located in
      let (other, there) = first_existing-some files ps path all first in
      (
        other,
        ap (or_no_config config_name) (
            first_existing_same files ((path, text) ∷ after) ps (
              All-map (λ p. is_key_file p ≡ false)
                (λ p. exists p ((path, text) ∷ after) ≡ exists p files)
                (λ p is_other.
                  exists-again p path text after (ap is_there (kept path other) ∙ there)
                  ∙ ap is_there (kept p is_other))
                ps all)
            ∙ first),
      )
