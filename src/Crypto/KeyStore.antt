-- ===== src/Crypto/KeyStore.antt =====
-- common/src/crypto/keystore.rs: the trait `KeyStoreBackend`, its two implementations and `KeyStore`.
pub mod Memory
pub mod File
pub mod Store
pub mod Backends
pub mod Decode
pub mod RoundTrip
mod Tests
use funtonic.Base.{
  ℕ, String, Bool, true, false, Option, none, some, Result, ok, err, ◌==◌, bytes_eq, if◌then◌else◌,
}
use funtonic.Base.Action.{Action}
use funtonic.Base.HashMap
use funtonic.Base.HashMap.{HashMap}
use funtonic.Crypto.Library.{Bytes, Ed25519}

-- The texts of two formatted times are the times themselves. `panic` is no value of the source: it
-- stands for a panic of the thread.
pub data KeyStoreError : Type 0 where
  key_not_found wrong_signature : String → KeyStoreError
  expired_signature : ℕ → ℕ → KeyStoreError
  payload_decode_error key_encoding_error io_error internal_storage : String → KeyStoreError
  poison panic : KeyStoreError

abbrev pub Keys : Type 0
Keys = HashMap Bytes

-- `trait KeyStoreBackend`
pub record KeyStoreBackend : Type 1 where
  pub State : Type 0
  pub insert_key : String → Bytes → Action State KeyStoreError (Unit {0})
  pub verify : String → Bytes → Bytes → State → Result (Unit {0}) KeyStoreError
  pub list_all : State → Result Keys KeyStoreError
  pub remove_key : String → Action State KeyStoreError Bytes
  pub has_key : String → Bytes → State → Result Bool KeyStoreError

unfoldable pub verify_signature :
    Ed25519 → Keys → String → Bytes → Bytes → Result (Unit {0}) KeyStoreError
unfolding HashMap.get
verify_signature ring db key_id payload signature = elim (HashMap.get key_id db) [
  | none ↦ err (key_not_found key_id)
  | some key_bytes ↦
      if ring.verify key_bytes payload signature then ok tt else err (wrong_signature key_id)
]

-- `map.get(key_id).filter(|bytes| bytes == key_bytes).is_some()`
unfoldable pub stored_as : String → Bytes → Keys → Bool
unfolding HashMap.get bytes_eq
stored_as key_id key_bytes db = elim (HashMap.get key_id db) [
  | none ↦ false
  | some bytes ↦ bytes_eq bytes key_bytes
]

-- `map.remove(key_id).ok_or(KeyNotFound)`: what `remove` gives is what was stored.
unfoldable pub take_key : String → Keys → Result Bytes KeyStoreError × Keys
unfolding HashMap.get HashMap.remove
take_key key_id db = elim (HashMap.get key_id db) [
  | none ↦ (err (key_not_found key_id), db)
  | some bytes ↦ (ok bytes, HashMap.remove key_id db)
]
