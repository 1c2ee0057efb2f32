-- ===== src/Config/Stored.antt =====
-- What a file holds after it was written: common/src/file_utils.rs and `serde_yaml`.
use funtonic.Base.{
  Option-cases, String, ◌≡◌, ap, true, some, ◌∷◌, ok, arith, inl, inr, Result-cases,
}
use funtonic.Config.Files.{
  PathBuf, Files, content, exists, content-write, is_there, parse_yaml_from_file, Yaml, IsYaml,
  write, Permissions,
}

-- A text is in the file from which the value is read.
abbrev pub Stores : {A : Type 0} → Yaml A → PathBuf → Files → A → Type 0
Stores yaml p files a =
    (text : String) × (content p files ≡ some text) × (yaml.from_reader text ≡ ok a)

pub read_stored :
    {A : Type 0} (permissions : Permissions) (yaml : Yaml A) (p : PathBuf) (files : Files) (a : A)
    → parse_yaml_from_file permissions yaml p files ≡ ok a
    → Stores yaml p files a
unfolding parse_yaml_from_file
read_stored permissions yaml p files a h =
    elim (Option-cases (content p files)) as (λ _. Stores yaml p files a) [
      | inl missing ↦ ground arith
      | inr (text, there) ↦
          elim (Result-cases (yaml.from_reader text)) as (λ _. Stores yaml p files a) [
            | inr (e, other) ↦ ground arith
            | inl (b, same) ↦ ground arith
          ]
    ]

pub stored_read :
    {A : Type 0} (permissions : Permissions) (yaml : Yaml A) (p : PathBuf) (files : Files) (a : A)
    → permissions.readable p ≡ true
    → Stores yaml p files a
    → parse_yaml_from_file permissions yaml p files ≡ ok a
unfolding parse_yaml_from_file
stored_read permissions yaml p files a may (text, there, reads) = ground arith

pub write_ok :
    {A : Type 0} (permissions : Permissions) (yaml : Yaml A) (p : PathBuf) (files : Files) (a : A)
    → (write permissions yaml p a files).0 ≡ ok (ok tt)
    → ((yaml.to_writer a).0 ≡ ok tt)
      × ((write permissions yaml p a files).1 ≡ (p, (yaml.to_writer a).1) ∷ files)
unfolding write
write_ok permissions yaml p files a h = (ground arith, ground arith)

pub write_stored :
    {A : Type 0} (permissions : Permissions) (yaml : Yaml A) (p : PathBuf) (files : Files) (a : A)
    → IsYaml yaml
    → (write permissions yaml p a files).0 ≡ ok (ok tt)
    → Stores yaml p (write permissions yaml p a files).1 a
      × ((write permissions yaml p a files).1 ≡ (p, (yaml.to_writer a).1) ∷ files)
write_stored permissions yaml p files a lawful h =
    let (written, after) = write_ok permissions yaml p files a h in
    (
      rw after (
        (yaml.to_writer a).1,
        content-write p (yaml.to_writer a).1 files,
        lawful.from_reader-to_writer a written,
      ),
      after,
    )

pub exists_of :
    {A : Type 0} (yaml : Yaml A) (p : PathBuf) (files : Files) (a : A)
    → Stores yaml p files a
    → exists p files ≡ true
unfolding exists is_there
exists_of yaml p files a (text, there, _) = ap is_there there
