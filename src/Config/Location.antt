-- ===== src/Config/Location.antt =====
-- Where a configuration is looked for: common/src/config.rs.
use funtonic.Base.{
  String, Option, none, some, List, [], ◌∷◌, Result, ok, err, ◌>>=◌, map_err, if◌then◌else◌,
}
use funtonic.Config.Files.{
  PathBuf, push, pop, Files, exists, Permissions, Yaml, FileError, parse_yaml_from_file,
}

pub data ConfigError : Type 0 where
  no_config_file : String → ConfigError
  file : FileError → ConfigError

-- The paths of "~/.funtonic/" and "/etc/funtonic/", as `shellexpand::tilde` expands them.
pub record DefaultLocations : Type 0 where
  pub home : PathBuf
  pub etc : PathBuf

unfoldable pub candidates : DefaultLocations → Option PathBuf → String → List PathBuf
candidates locations none name = push name locations.home ∷ push name locations.etc ∷ []
candidates locations (some p) name = p ∷ push name locations.home ∷ push name locations.etc ∷ []

unfoldable pub first_existing : Files → List PathBuf → Option PathBuf
unfolding exists
first_existing files [] = none
first_existing files (p ∷ ps) =
    let rest = first_existing files ps in if exists p files then some p else rest

unfoldable pub or_no_config : String → Option PathBuf → Result PathBuf ConfigError
or_no_config name none = err (no_config_file name)
or_no_config name (some p) = ok p

unfoldable pub resolve_config_path :
    DefaultLocations → Option PathBuf → String → Files → Result PathBuf ConfigError
unfolding candidates first_existing or_no_config
resolve_config_path locations provided name files =
    or_no_config name (first_existing files (candidates locations provided name))

unfoldable pub parse :
    {C : Type 0}
    → DefaultLocations
    → Permissions
    → Yaml C
    → Option PathBuf
    → String
    → Files
    → Result (C × PathBuf) ConfigError
unfolding resolve_config_path parse_yaml_from_file
parse locations permissions yaml provided name files = do
  config_path ← resolve_config_path locations provided name files
  config ← map_err file (parse_yaml_from_file permissions yaml config_path files)
  ok (config, config_path)

unfoldable pub get_config_directory :
    DefaultLocations → Option PathBuf → String → Files → Result PathBuf ConfigError
unfolding resolve_config_path
get_config_directory locations provided name files = do
  config_file ← resolve_config_path locations provided name files
  ok (pop config_file)
