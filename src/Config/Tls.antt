-- ===== src/Config/Tls.antt =====
-- `TlsConfig` of common/src/config.rs: the files that make the configuration of a client or a server.
use funtonic.Base.{String, Option, Result, ok, ◌>>=◌}
use funtonic.Config.Files.{PathBuf, Files, Permissions, FileError, read}

pub record TlsConfig : Type 0 where
  pub ca_cert : String
  pub key : String
  pub cert : String
  pub server_domain : Option String

-- `Identity::from_pem`
pub record Identity : Type 0 where
  pub cert : String
  pub key : String

-- `ClientTlsConfig` and `ServerTlsConfig`, by what they are made from.
pub record ClientTlsConfig : Type 0 where
  pub identity : Identity
  pub ca_certificate : String
  pub domain_name : Option String

pub record ServerTlsConfig : Type 0 where
  pub identity : Identity
  pub client_ca_root : String

-- `expand` is `shellexpand::tilde` with the path that is made of its text.
module _ (expand : String → PathBuf) (permissions : Permissions) (files : Files) where
  unfoldable pub get_identity : TlsConfig → Result Identity FileError
  unfolding read
  get_identity tls = do
    cert ← read permissions (expand tls.cert) files
    key ← read permissions (expand tls.key) files
    ok (record { cert = cert; key = key })

  unfoldable pub get_ca_certificate : TlsConfig → Result String FileError
  unfolding read
  get_ca_certificate tls = read permissions (expand tls.ca_cert) files

  unfoldable pub get_client_config : TlsConfig → Result ClientTlsConfig FileError
  unfolding get_identity get_ca_certificate
  get_client_config tls = do
    identity ← get_identity tls
    ca_certificate ← get_ca_certificate tls
    ok (record {
      identity = identity;
      ca_certificate = ca_certificate;
      domain_name = tls.server_domain;
    })

  unfoldable pub get_server_config : TlsConfig → Result ServerTlsConfig FileError
  unfolding get_identity get_ca_certificate
  get_server_config tls = do
    identity ← get_identity tls
    ca_certificate ← get_ca_certificate tls
    ok (record { identity = identity; client_ca_root = ca_certificate })
