-- ===== src/Crypto/KeyStore/RoundTrip.antt =====
-- What `encode_and_sign` makes, `decode_payload` accepts until its validity ends.
use funtonic.Base.{ℕ, ◌+◌, ◌*◌, ◌-◌, ◌/◌, ◌≤◌, false, ◌≡◌, arith, some, ok}
use funtonic.Crypto.Library.{Bytes, Ed25519, IsSignature, Base64, Message, IsMessage, Database}
use funtonic.Crypto.SignedPayload.{
  SignedPayload, Ed25519Key, payload_bytes_to_sign, nanos, encode_and_sign,
}
use funtonic.Crypto.KeyStore.{Keys, verify_signature}
use funtonic.Crypto.KeyStore.File.{file_backend}
use funtonic.Crypto.KeyStore.Memory.{MemoryKeyStore, memory_backend}
use funtonic.Crypto.KeyStore.Store.{decode_payload, max_system_secs}
use funtonic.Crypto.KeyStore.Decode.{decode_payload-eq-ok_iff}
use funtonic.Base.HashMap
use funtonic.Crypto.KeyStore.File
use funtonic.Crypto.KeyStore.Memory

module _ (ring : Ed25519) (base64 : Base64) (unix_epoch : ℕ) {P : Type 0} (message : Message P)
    (payload : P) (key : Ed25519Key) (validity now nonce : ℕ) (signed : SignedPayload)
    (bytes : Bytes) (pair : ring.KeyPair) (decoded : base64.decode key.pkcs8 ≡ ok bytes)
    (parsed : ring.from_pkcs8 bytes ≡ ok pair)
    (made : encode_and_sign ring base64 unix_epoch message payload key validity now nonce
      ≡ ok signed) where
  in_time : unix_epoch ≤ now + validity
  unfolding encode_and_sign
  in_time = ground arith

  pub encoded : message.encode payload ≡ ok signed.payload
  unfolding encode_and_sign
  encoded = ground arith

  named : signed.key_id ≡ key.id
  unfolding encode_and_sign
  named = ground arith

  dated : signed.valid_until_secs ≡ (now + validity - unix_epoch) / nanos
  unfolding encode_and_sign
  dated = ground arith

  covered : signed.signature ≡ ring.sign pair (payload_bytes_to_sign signed)
  unfolding encode_and_sign payload_bytes_to_sign
  covered = ground arith

  pub not_expired :
      (later : ℕ)
      → later + nanos ≤ now + validity
      → later ≤ unix_epoch + signed.valid_until_secs * nanos
  not_expired later h = omega (arith, dated, in_time)

  pub verified :
      IsSignature ring
      → (s : MemoryKeyStore) → s.poisoned ≡ false
      → HashMap.get key.id s.inner ≡ some (ring.public_key pair)
      → Memory.verify ring signed.key_id (payload_bytes_to_sign signed) signed.signature s ≡ ok tt
  unfolding Memory.verify verify_signature
  verified law s healthy known =
      ground (arith, named, covered, law.verify-sign pair (payload_bytes_to_sign signed))

  -- A payload signed with a private key is accepted, as what it was, by a store that has the public
  -- key under the key's name, at every time up to a second before its validity ends. The store's lock
  -- is not poisoned and the expiry time is one that the system can represent.
  pub decode_payload-encode_and_sign :
      IsSignature ring
      → IsMessage message
      → (s : MemoryKeyStore) → s.poisoned ≡ false
      → HashMap.get key.id s.inner ≡ some (ring.public_key pair)
      → signed.valid_until_secs ≤ max_system_secs
      → (later : ℕ) → later + nanos ≤ now + validity
      → decode_payload (memory_backend ring) message unix_epoch later signed s ≡ ok payload
  decode_payload-encode_and_sign law codec s healthy known small later h =
      (decode_payload-eq-ok_iff (memory_backend ring) message unix_epoch later signed s payload).1 (
        small,
        not_expired later h,
        verified law s healthy known,
        codec.decode-encode payload signed.payload encoded,
      )

  -- The same over a file key store whose database can be read.
  pub decode_payload-encode_and_sign_in_file :
      IsSignature ring
      → IsMessage message
      → (db : Database Keys) (s : db.State) (keys : Keys) → db.read s ≡ ok keys
      → HashMap.get key.id keys ≡ some (ring.public_key pair)
      → signed.valid_until_secs ≤ max_system_secs
      → (later : ℕ) → later + nanos ≤ now + validity
      → decode_payload (file_backend db ring) message unix_epoch later signed s ≡ ok payload
  unfolding File.verify verify_signature
  decode_payload-encode_and_sign_in_file law codec db s keys read known small later h =
      (decode_payload-eq-ok_iff (file_backend db ring) message unix_epoch later signed s payload).1
        (
          small,
          not_expired later h,
          ground (arith, read, named, covered, law.verify-sign pair (payload_bytes_to_sign signed)),
          codec.decode-encode payload signed.payload encoded,
        )
