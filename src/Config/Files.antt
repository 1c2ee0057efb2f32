-- ===== src/Config/Files.antt =====
-- Paths, files and YAML, as common/src/path_builder.rs, common/src/file_utils.rs and the executor's
-- `main` use them. Each path names a file of its own, and none
-- starts with a tilde, so that expanding it changes nothing. Directories are left out.
use funtonic.Base.{
  String, ◌≡◌, refl, sym, ap, ◌∙◌, Bool-cases, inl, inr, Bool, true, false, ◌&&◌, ◌==◌, eq_iff,
  Option, none, some, List, [], ◌∷◌, Result, ok, err, ◌>>=◌, map_err, arith, if◌then◌else◌,
}
use funtonic.Base.Action.{Action}

-- The components, the last one first; a root is a component "/".
abbrev pub PathBuf : Type 0
PathBuf = List String

unfoldable pub same_path : PathBuf → PathBuf → Bool
same_path [] [] = true
same_path [] (d ∷ q) = false
same_path (c ∷ p) [] = false
same_path (c ∷ p) (d ∷ q) = let rest = same_path p q in c == d && rest

-- `PathBuf::push` of a file name
abbrev pub push : String → PathBuf → PathBuf
push name p = name ∷ p

-- `PathBuf::pop`: a path without a parent stays.
unfoldable pub pop : PathBuf → PathBuf
pop [] = []
pop (c ∷ []) = if c == "/" then c ∷ [] else []
pop (c ∷ d ∷ p) = d ∷ p

-- The texts of the files.
abbrev pub Files : Type 0
Files = List (PathBuf × String)

unfoldable pub content : PathBuf → Files → Option String
unfolding same_path
content p [] = none
content p ((q, text) ∷ files) = if same_path q p then some text else content p files

unfoldable pub is_there : Option String → Bool
is_there none = false
is_there (some text) = true

unfoldable pub exists : PathBuf → Files → Bool
unfolding content is_there
exists p files = is_there (content p files)

-- Which files can be opened for reading and for writing.
pub record Permissions : Type 0 where
  pub readable : PathBuf → Bool
  pub writable : PathBuf → Bool

-- `serde_yaml` for one type: the value read, and what is written with the success of the writing.
pub record Yaml (A : Type 0) : Type 0 where
  pub from_reader : String → Result A String
  pub to_writer : A → Result (Unit {0}) String × String

pub record IsYaml {A : Type 0} (yaml : Yaml A) : Type 0 where
  pub from_reader-to_writer :
      (a : A) → (yaml.to_writer a).0 ≡ ok tt → yaml.from_reader (yaml.to_writer a).1 ≡ ok a

pub data FileError : Type 0 where
  unable_to_open not_created : PathBuf → FileError
  not_yaml : String → FileError

open_text : Permissions → PathBuf → Option String → Result String FileError
open_text permissions p none = err (unable_to_open p)
open_text permissions p (some text) =
    if permissions.readable p then ok text else err (unable_to_open p)

-- `read`
unfoldable pub read : Permissions → PathBuf → Files → Result String FileError
unfolding content open_text
read permissions p files = open_text permissions p (content p files)

-- `parse_yaml_from_file`
unfoldable pub parse_yaml_from_file :
    {A : Type 0} → Permissions → Yaml A → PathBuf → Files → Result A FileError
unfolding content open_text
parse_yaml_from_file permissions yaml p files = do
  text ← open_text permissions p (content p files)
  map_err not_yaml (yaml.from_reader text)

-- `File::create`, which empties the file, and then what is written to it.
unfoldable pub write :
    {A : Type 0}
    → Permissions
    → Yaml A
    → PathBuf
    → A
    → Action Files FileError (Result (Unit {0}) String)
write permissions yaml p a files =
    if permissions.writable p
    then (ok (yaml.to_writer a).0, (p, (yaml.to_writer a).1) ∷ files)
    else (err (not_created p), files)

same_path_iff : (p q : PathBuf) → same_path p q ≡ true → p ≡ q
unfolding same_path
same_path_iff [] [] h = refl
same_path_iff [] (d ∷ q) h = ground arith
same_path_iff (c ∷ p) [] h = ground arith
same_path_iff (c ∷ p) (d ∷ q) h = ground (arith, eq_iff c d, same_path_iff p q)

same_path_refl : (p : PathBuf) → same_path p p ≡ true
unfolding same_path
same_path_refl [] = refl
same_path_refl (c ∷ p) = ground (arith, eq_iff c c, same_path_refl p)

pub content-write :
    (p : PathBuf) (text : String) (files : Files) → content p ((p, text) ∷ files) ≡ some text
unfolding content
content-write p text files = rw (same_path_refl p) refl

pub content-other :
    (p q : PathBuf) (text : String) (files : Files)
    → same_path q p ≡ false
    → content p ((q, text) ∷ files) ≡ content p files
unfolding content
content-other p q text files h = rw h refl

content-same :
    (p q : PathBuf) (text : String) (files : Files)
    → same_path q p ≡ true
    → content p ((q, text) ∷ files) ≡ some text
unfolding content
content-same p q text files h = rw h refl

exists-other :
    (p q : PathBuf) (text : String) (files : Files)
    → same_path q p ≡ false
    → exists p ((q, text) ∷ files) ≡ exists p files
unfolding exists
exists-other p q text files h = ap is_there (content-other p q text files h)

-- Writing a file that is there makes none.
pub exists-again :
    (p q : PathBuf) (text : String) (files : Files)
    → exists q files ≡ true
    → exists p ((q, text) ∷ files) ≡ exists p files
unfolding exists is_there
exists-again p q text files there = elim (Bool-cases (same_path q p)) [
  | inr differ ↦ exists-other p q text files differ
  | inl same ↦
      ap is_there (content-same p q text files same)
      ∙ sym there
      ∙ ap (λ r. exists r files) (same_path_iff q p same)
]
