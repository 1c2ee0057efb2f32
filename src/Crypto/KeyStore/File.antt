-- ===== src/Crypto/KeyStore/File.antt =====
-- `FileKeyStoreBackend`: a map in a rustbreak database, saved after each change.
use funtonic.Base
use funtonic.Base.{String, Bool, Result, ok, err, map_err}
use funtonic.Base.Action.{Action, pure, lift, ◌>>=◌, ◌>>◌}
use funtonic.Base.HashMap
use funtonic.Crypto.Library.{Bytes, Ed25519, Database}
use funtonic.Crypto.KeyStore.{
  Keys, KeyStoreError, internal_storage, KeyStoreBackend, verify_signature, stored_as, take_key,
}

-- `?` on an error of the database.
abbrev pub raised : {S A : Type 0} → Action S String A → Action S KeyStoreError A
raised m s = let (r, s') = m s in (map_err internal_storage r, s')

module _ (db : Database Keys) where
  unfoldable pub insert_key : String → Bytes → Action db.State KeyStoreError (Unit {0})
  unfolding HashMap.insert
  insert_key key_id key_bytes = do
    raised (db.write (λ keys. (tt, HashMap.insert key_id key_bytes keys)))
    raised db.save

  unfoldable pub remove_key : String → Action db.State KeyStoreError Bytes
  remove_key key_id = do
    taken ← raised (db.write (take_key key_id))
    removed ← lift taken
    raised db.save
    pure removed

  unfoldable pub list_all : db.State → Result Keys KeyStoreError
  list_all s = map_err internal_storage (db.read s)

  unfoldable pub has_key : String → Bytes → db.State → Result Bool KeyStoreError
  has_key key_id key_bytes s =
      Base.◌>>=◌ (map_err internal_storage (db.read s))
        (λ keys. ok (stored_as key_id key_bytes keys))

  unfoldable pub verify :
      Ed25519 → String → Bytes → Bytes → db.State → Result (Unit {0}) KeyStoreError
  verify ring key_id payload signature s =
      Base.◌>>=◌ (map_err internal_storage (db.read s))
        (λ keys. verify_signature ring keys key_id payload signature)

-- `impl KeyStoreBackend for FileKeyStoreBackend`
abbrev pub file_backend : Database Keys → Ed25519 → KeyStoreBackend
file_backend db ring = record {
  State = db.State;
  insert_key = insert_key db;
  verify = verify db ring;
  list_all = list_all db;
  remove_key = remove_key db;
  has_key = has_key db;
}
