-- ===== src/Crypto/KeyStore/Tests.antt =====
-- Runs of common/src/crypto, and its theorems at small libraries.
use funtonic.Base.{
  ℕ, ◌+◌, ◌*◌, ◌≤◌, ◌<◌, ◌≡◌, ◌↔◌, refl, some, none, [], ◌∷◌, arith, ok, err, false, bytes_eq,
}
use funtonic.Base.HashMap
use funtonic.Crypto.Library.{Bytes}
use funtonic.Crypto.Samples.{
  toy_ring, toy_ring-IsSignature, toy_base64, toy_message, toy_message-IsMessage, toy_database,
  toy_database-IsDatabase,
}
use funtonic.Crypto.LittleEndian.{le_bytes}
use funtonic.Crypto.SignedPayload.{
  SignedPayload, Ed25519Key, to_sign_from_exploded_payload, payload_bytes_to_sign, encode_and_sign,
  nanos,
}
use funtonic.Crypto.SignedPayload.Injective.{to_sign-injective}
use funtonic.Crypto.KeyStore.{Keys, panic, wrong_signature, verify_signature}
use funtonic.Crypto.KeyStore.Memory
use funtonic.Crypto.KeyStore.Memory.{MemoryKeyStore, memory_backend}
use funtonic.Crypto.KeyStore.File.{file_backend}
use funtonic.Crypto.KeyStore.Store.{decode_payload, max_system_secs}
use funtonic.Crypto.KeyStore.Backends.{
  IsKeyStore, memory_backend-IsKeyStore, file_backend-IsKeyStore,
}
use funtonic.Crypto.KeyStore.Decode.{decode_payload-eq-ok_iff, decode_payload-eq-panic_iff}
use funtonic.Crypto.KeyStore.RoundTrip.{decode_payload-encode_and_sign}

abbrev key : Ed25519Key
key = record { id = "abcd"; pkcs8 = "AQI="; public_key = none }

-- Signed at 1,000 s after the epoch for 5 s.
abbrev signed : SignedPayload
signed = record {
  payload = 7 ∷ [];
  nonce = 3;
  valid_until_secs = 1005;
  signature = 1 ∷ 2 ∷ 7 ∷ 3 ∷ 0 ∷ 0 ∷ 0 ∷ 0 ∷ 0 ∷ 0 ∷ 0 ∷ 237 ∷ 3 ∷ 0 ∷ 0 ∷ 0 ∷ 0 ∷ 0 ∷ 0 ∷ [];
  key_id = "abcd";
}

signs :
    encode_and_sign toy_ring toy_base64 0 toy_message 7 key (5 * nanos) (1000 * nanos) 3 ≡ ok signed
unfolding encode_and_sign to_sign_from_exploded_payload le_bytes
signs = refl

abbrev store : MemoryKeyStore
store = record { poisoned = false; inner = ("abcd", 1 ∷ 2 ∷ []) ∷ [] }

known : HashMap.get "abcd" store.inner ≡ some (1 ∷ 2 ∷ [])
unfolding HashMap.get
known = refl

decode_payload-encode_and_sign_example :
    decode_payload (memory_backend toy_ring) toy_message 0 (1004 * nanos) signed store ≡ ok 7
decode_payload-encode_and_sign_example =
    decode_payload-encode_and_sign toy_ring toy_base64 0 toy_message 7 key (5 * nanos)
      (1000 * nanos) 3 signed (1 ∷ 2 ∷ []) (1 ∷ 2 ∷ []) refl refl signs toy_ring-IsSignature
      toy_message-IsMessage store refl known (omega arith) (1004 * nanos) (omega arith)

-- Another payload under the same signature.
tampered :
    decode_payload
      (memory_backend toy_ring)
      toy_message
      0
      (1004 * nanos)
      (record signed { payload = 8 ∷ [] })
      store
    ≡ err (wrong_signature "abcd")
unfolding decode_payload Memory.verify verify_signature HashMap.get to_sign_from_exploded_payload
    le_bytes bytes_eq
tampered = refl

decode_payload-eq-ok_iff_example :
    (decode_payload (memory_backend toy_ring) toy_message 0 (1004 * nanos) signed store ≡ ok 7) ↔ (
      (1005 ≤ max_system_secs)
      × (1004 * nanos ≤ 0 + 1005 * nanos)
      × (Memory.verify toy_ring "abcd" (payload_bytes_to_sign signed) signed.signature store
          ≡ ok tt)
      × (toy_message.decode (7 ∷ []) ≡ ok 7))
decode_payload-eq-ok_iff_example =
    decode_payload-eq-ok_iff (memory_backend toy_ring) toy_message 0 (1004 * nanos) signed store 7

abbrev far : SignedPayload
far = record signed { valid_until_secs = 9223372036854775808 }

decode_payload-eq-panic_iff_example :
    (decode_payload (memory_backend toy_ring) toy_message 0 0 far store ≡ err panic)
    ↔ (max_system_secs < 9223372036854775808)
decode_payload-eq-panic_iff_example = decode_payload-eq-panic_iff toy_ring toy_message 0 0 far store

to_sign-injective_example :
    let bytes : Bytes = 7 ∷ [] in (bytes ≡ bytes) × (◌≡◌ {A = ℕ} 3 3) × (◌≡◌ {A = ℕ} 1005 1005)
to_sign-injective_example =
    to_sign-injective (7 ∷ []) (7 ∷ []) 3 3 1005 1005 (omega arith) (omega arith) (omega arith)
      (omega arith) refl

memory_backend-IsKeyStore_example : IsKeyStore toy_ring (memory_backend toy_ring) (λ s. s.inner)
memory_backend-IsKeyStore_example = memory_backend-IsKeyStore toy_ring

file_backend-IsKeyStore_example :
    IsKeyStore toy_ring (file_backend (toy_database Keys) toy_ring) (λ s. s)
unfolding toy_database-IsDatabase
file_backend-IsKeyStore_example =
    file_backend-IsKeyStore toy_ring (toy_database Keys) (toy_database-IsDatabase Keys)
