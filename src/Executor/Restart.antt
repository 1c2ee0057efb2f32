-- ===== src/Executor/Restart.antt =====
-- What the next round of `main` of executor/src/main.rs starts with, after a configuration is saved.
pub mod KeyFile
pub mod Lookup
pub mod Ending
use funtonic.Base.{String, ◌≡◌, ap, ◌∙◌, true, Option, ◌∷◌, ok}
use funtonic.Config.Files.{PathBuf, pop, Files, content-write, content-other, IsYaml, write}
use funtonic.Base.Action.{Action, bind_ok, bind_of_ok}
use funtonic.Executor.Main.{
  finish, saved, Round, executor_main, main_round, Machine, Surroundings, start, get_key_path,
  MainError,
}
use funtonic.Crypto.SignedPayload.{Ed25519Key}
use funtonic.Executor.Registration.{ExecutorConfig}
use funtonic.Config.Stored.{Stores, stored_read, write_ok, exists_of}
use funtonic.Executor.Restart.KeyFile.{differs, KeyKept, key_kept}
use funtonic.Executor.Restart.Lookup.{
  NotKeyFile, found, Started, start_ok, start_ready, found_again,
}
use funtonic.Executor.Restart.Ending.{finish_ok, Ended, executor_main_ok}

module _ (M : Machine) (provided : Option PathBuf) (named : NotKeyFile provided)
    (s : Surroundings) where
  -- A round after the configuration is written.
  resumed :
      (later : Surroundings) (files after : Files) (changed : ExecutorConfig) (path : PathBuf)
      (key : Ed25519Key) (text : String)
      → ((p : PathBuf) → later.permissions.readable p ≡ true)
      → found M provided s files ≡ ok path
      → KeyKept M files (pop path) after key
      → M.config_yaml.from_reader text ≡ ok changed
      → start M provided later ((path, text) ∷ after)
        ≡ (ok (changed, path, key), (path, text) ∷ after)
  unfolding KeyKept
  resumed later files after changed path key text may located (stored, kept) reads =
      let (other, again) = found_again M provided named s files after path text located kept in
      let key_path : PathBuf = get_key_path (pop path) in
      let (key_text, there, key_reads) = stored in
      let has : Stores M.key_yaml key_path ((path, text) ∷ after) key = (
        key_text,
        content-other key_path path text after (differs path (pop path) other) ∙ there,
        key_reads,
      ) in
      start_ready M provided later ((path, text) ∷ after) changed path key again
        (stored_read later.permissions M.config_yaml path ((path, text) ∷ after) changed (may path)
          (text, content-write path text after, reads))
        (exists_of M.key_yaml key_path ((path, text) ∷ after) key has)
        (stored_read later.permissions M.key_yaml key_path ((path, text) ∷ after) key (may key_path)
          has)

  next_start :
      (key_lawful : IsYaml M.key_yaml) (config_lawful : IsYaml M.config_yaml) (later : Surroundings)
      (files : Files) (config changed : ExecutorConfig) (path : PathBuf) (key : Ed25519Key)
      → ((p : PathBuf) → later.permissions.readable p ≡ true)
      → (start M provided s files).0 ≡ ok (config, path, key)
      → let started = (start M provided s files).1 in
        (write s.permissions M.config_yaml path changed started).0 ≡ ok (ok tt)
        → let after = (write s.permissions M.config_yaml path changed started).1 in
          start M provided later after ≡ (ok (changed, path, key), after)
  unfolding Started
  next_start key_lawful config_lawful later files config changed path key may starts writes =
      let (located, read, whole, keyed) = start_ok M provided s files config path key starts in
      let started : Files = (start M provided s files).1 in
      let (written, after) = write_ok s.permissions M.config_yaml path started changed writes in
      rw after (
        resumed later files started changed path key (M.config_yaml.to_writer changed).1 may located
          (rw (ap (λ r. r.1) whole) (key_kept M s key_lawful files config (pop path) key keyed))
          (config_lawful.from_reader-to_writer changed written))

  -- A round of `main` that ends with its configuration written, where the configuration was not
  -- looked for in the key's file: it has started with a configuration and a key, and the retry loop
  -- has ended with a modification of the authorized keys. Every next round that may read the files
  -- starts from the same path with this key, one that was generated too, and with the modified
  -- configuration.
  pub main_round-start :
      (key_lawful : IsYaml M.key_yaml) (config_lawful : IsYaml M.config_yaml) (later : Surroundings)
      (may : (p : PathBuf) → later.permissions.readable p ≡ true) (files : Files)
      → (main_round M provided s files).0 ≡ ok (saved (ok tt))
      → (config : ExecutorConfig) × (path : PathBuf) × (key : Ed25519Key)
        × (changed : ExecutorConfig) × ((start M provided s files).0 ≡ ok (config, path, key))
        × Ended M provided s config key changed
        × (start M provided later (main_round M provided s files).1
            ≡ (ok (changed, path, key), (main_round M provided s files).1))
  unfolding main_round
  main_round-start key_lawful config_lawful later may files h =
      let ((config, path, key), starts, finishes) =
        bind_ok (start M provided s)
          (λ (config, path, key) at. finish M s path (executor_main M s config key at) at) files
          (saved (ok tt)) h in
      let ending : ExecutorConfig × PathBuf × Ed25519Key → Action Files MainError Round =
        λ (config, path, key) at. finish M s path (executor_main M s config key at) at in
      let started : Files = (start M provided s files).1 in
      let (changed, result, writes, after) =
        finish_ok M provided s path (executor_main M s config key started) started finishes in
      (
        config,
        path,
        key,
        changed,
        starts,
        executor_main_ok M provided s config key changed started result,
        rw
            (ap (λ r. r.1) (bind_of_ok (start M provided s) ending files (config, path, key) starts)
              ∙ after)
            (next_start key_lawful config_lawful later files config changed path key may starts
              writes),
      )
