-- ===== src/Crypto/KeyStore/Store.antt =====
-- `KeyStore` of common/src/crypto/keystore.rs, over any backend.
use funtonic.Base
use funtonic.Base.{
  ℕ, ◌+◌, ◌*◌, ◌-◌, ◌^◌, String, Bool, List, [], ◌∷◌, Result, ok, err, map_err, ltb, if◌then◌else◌,
}
use funtonic.Base.Action.{Action, pure, lift, ◌>>=◌, ◌>>◌}
use funtonic.Base.HashMap.{HashMap}
use funtonic.Crypto.Library.{Bytes, Base64, Message}
use funtonic.Crypto.SignedPayload.{SignedPayload, payload_bytes_to_sign, nanos}
use funtonic.Crypto.KeyStore.{
  Keys, KeyStoreError, KeyStoreBackend, expired_signature, payload_decode_error, key_encoding_error,
  panic,
}

-- The seconds after the Unix epoch that a `SystemTime` can hold on Linux.
abbrev pub max_system_secs : ℕ
max_system_secs = 2 ^ 63 - 1

abbrev encoded : Base64 → Keys → HashMap String
encoded base64 [] = []
encoded base64 ((id, bytes) ∷ keys) = (id, base64.encode bytes) ∷ encoded base64 keys

module _ (B : KeyStoreBackend) where
  unfoldable pub register_key : String → Bytes → Action B.State KeyStoreError (Unit {0})
  register_key = B.insert_key

  unfoldable pub remove_key : String → Action B.State KeyStoreError Bytes
  remove_key = B.remove_key

  unfoldable pub has_key : String → Bytes → B.State → Result Bool KeyStoreError
  has_key = B.has_key

  unfoldable pub init_from_map : Base64 → HashMap String → Action B.State KeyStoreError (Unit {0})
  unfolding register_key
  init_from_map base64 [] = pure tt
  init_from_map base64 ((key, base64_encoded_bytes) ∷ map) = do
    bytes ← lift (map_err key_encoding_error (base64.decode base64_encoded_bytes))
    register_key key bytes
    init_from_map base64 map

  unfoldable pub list_all : Base64 → B.State → Result (HashMap String) KeyStoreError
  list_all base64 s = Base.◌>>=◌ (B.list_all s) (λ keys. ok (encoded base64 keys))

  -- `unix_epoch` is the time of the Unix epoch, `now` the reading of the clock. Adding the seconds to
  -- the epoch panics where the sum is no `SystemTime`.
  unfoldable pub decode_payload :
      {P : Type 0} → Message P → ℕ → ℕ → SignedPayload → B.State → Result P KeyStoreError
  unfolding payload_bytes_to_sign
  decode_payload message unix_epoch now payload s =
      let valid_until = unix_epoch + payload.valid_until_secs * nanos in
      let checked =
        Base.◌>>=◌ (B.verify payload.key_id (payload_bytes_to_sign payload) payload.signature s)
          (λ _. map_err payload_decode_error (message.decode payload.payload)) in
      if ltb max_system_secs payload.valid_until_secs
      then err panic
      else if ltb valid_until now
      then err (expired_signature valid_until now)
      else checked
