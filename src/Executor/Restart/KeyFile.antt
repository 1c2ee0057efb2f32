-- ===== src/Executor/Restart/KeyFile.antt =====
-- The key of an executor in its file: executor/src/main.rs.
use funtonic.Base.{
  map_err_ok, Option-cases, String, ◌≡◌, refl, sym, Bool, true, false, ◌==◌, eq_iff, [], ◌∷◌,
  Result, ok, err, arith, if◌then◌else◌, inl, inr, Result-cases,
}
use funtonic.Config.Files.{
  PathBuf, push, same_path, Files, content, exists, content-other, parse_yaml_from_file, IsYaml,
  write, FileError,
}
use funtonic.Config.Location.{file}
use funtonic.Crypto.SignedPayload.{Ed25519Key}
use funtonic.Executor.Registration.{ExecutorConfig}
use funtonic.Executor.Main.{
  key_name, Machine, Surroundings, read_key, write_key, not_configured, drawn,
  generate_base64_encoded_keys, generate_key, get_signing_key, get_key_path, MainError,
}
use funtonic.Config.Stored.{Stores, read_stored, write_stored}

unfoldable pub is_key_file : PathBuf → Bool
is_key_file [] = false
is_key_file (name ∷ dir) = name == key_name

pub differs : (p dir : PathBuf) → is_key_file p ≡ false → same_path p (push key_name dir) ≡ false
unfolding is_key_file same_path
differs [] dir h = refl
differs (c ∷ p) dir h = ground (arith, eq_iff c key_name)

pub differs_too :
    (p dir : PathBuf) → is_key_file p ≡ false → same_path (push key_name dir) p ≡ false
unfolding is_key_file same_path
differs_too [] dir h = refl
differs_too (c ∷ p) dir h = ground (arith, eq_iff c key_name, eq_iff key_name c)

-- The key is in its file, and no other file has changed.
unfoldable pub KeyKept : Machine → Files → PathBuf → Files → Ed25519Key → Type 0
KeyKept M files dir after key =
    Stores M.key_yaml (get_key_path dir) after key
    × ((p : PathBuf) → is_key_file p ≡ false → content p after ≡ content p files)

module _ (M : Machine) (s : Surroundings) (key_lawful : IsYaml M.key_yaml) where
  pub read_kept :
      (files : Files) (dir : PathBuf) (key : Ed25519Key)
      → (read_key M s (get_key_path dir) files).0 ≡ ok key
      → KeyKept M files dir (read_key M s (get_key_path dir) files).1 key
  unfolding read_key KeyKept
  read_kept files dir key h = (
    read_stored s.permissions M.key_yaml (get_key_path dir) files key (
        map_err_ok (λ e. not_configured (file e))
          (parse_yaml_from_file s.permissions M.key_yaml (get_key_path dir) files) key h),
    λ p other. refl,
  )

  abbrev pub opened :
      Files → PathBuf → Ed25519Key → Result (Result (Unit {0}) String) FileError × Files
  opened files dir key = write s.permissions M.key_yaml (get_key_path dir) key files

  pub write_key_ok :
      (files : Files) (dir : PathBuf) (written key : Ed25519Key)
      → (write_key M s (get_key_path dir) written files).0 ≡ ok key
      → ((opened files dir written).0 ≡ ok (ok tt))
        × (written ≡ key)
        × ((write_key M s (get_key_path dir) written files).1 ≡ (opened files dir written).1)
  unfolding write_key
  write_key_ok files dir written key h =
      let Goal : Type 0 =
        ((opened files dir written).0 ≡ ok (ok tt))
        × (written ≡ key)
        × ((write_key M s (get_key_path dir) written files).1 ≡ (opened files dir written).1) in
      elim (Result-cases (opened files dir written).0) as (λ _. Goal) [
        | inr (e, refused) ↦ ground arith
        | inl (ok done, through) ↦ (ground arith, ground arith, ground arith)
        | inl (err e, through) ↦ ground arith
      ]

  pub write_kept :
      (files : Files) (dir : PathBuf) (written key : Ed25519Key)
      → (write_key M s (get_key_path dir) written files).0 ≡ ok key
      → KeyKept M files dir (write_key M s (get_key_path dir) written files).1 key
  unfolding write_key KeyKept
  write_kept files dir written key h =
      let (through, same, after) = write_key_ok files dir written key h in
      let (stored, files_after) =
        write_stored s.permissions M.key_yaml (get_key_path dir) files written key_lawful through in
      (
        rw (after, sym same) stored,
        λ p other.
            rw (after, files_after)
              (content-other p (get_key_path dir) (M.key_yaml.to_writer written).1 files
                (differs_too p dir other)),
      )

  pub generate_kept :
      (files : Files) (config : ExecutorConfig) (dir : PathBuf) (key : Ed25519Key)
      → (generate_key M s config (get_key_path dir) files).0 ≡ ok key
      → KeyKept M files dir (generate_key M s config (get_key_path dir) files).1 key
  unfolding generate_key drawn KeyKept
  generate_kept files config dir key h =
      elim (Option-cases s.pair)
        as (λ _. KeyKept M files dir (generate_key M s config (get_key_path dir) files).1 key) [
          | inl undrawn ↦ ground arith
          | inr (pair, draws) ↦ rw draws (
              write_kept files dir (generate_base64_encoded_keys M.base64 config.client_id pair).0
                key (ground arith))
        ]

  pub chosen :
      (files : Files) (dir : PathBuf) (key : Ed25519Key) (b : Bool)
      (r g : Result Ed25519Key MainError × Files)
      → (if b then r else g).0 ≡ ok key
      → (r.0 ≡ ok key → KeyKept M files dir r.1 key)
      → (g.0 ≡ ok key → KeyKept M files dir g.1 key)
      → KeyKept M files dir (if b then r else g).1 key
  chosen files dir key true r g h read generated = read h
  chosen files dir key false r g h read generated = generated h

  pub key_kept :
      (files : Files) (config : ExecutorConfig) (dir : PathBuf) (key : Ed25519Key)
      → (get_signing_key M s config (get_key_path dir) files).0 ≡ ok key
      → KeyKept M files dir (get_signing_key M s config (get_key_path dir) files).1 key
  unfolding get_signing_key
  key_kept files config dir key h =
      chosen files dir key (exists (get_key_path dir) files) (read_key M s (get_key_path dir) files)
        (generate_key M s config (get_key_path dir) files) h (read_kept files dir key)
        (generate_kept files config dir key)
