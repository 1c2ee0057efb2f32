-- ===== src/Crypto/KeyStore/Decode.antt =====
-- Which payloads `decode_payload` accepts.
use funtonic.Base.{ℕ, ◌+◌, ◌*◌, ◌≤◌, ◌<◌, String, ◌≡◌, ◌≢◌, ◌↔◌, arith, ok, err}
use funtonic.Crypto.Library.{Bytes, Ed25519, Message}
use funtonic.Crypto.SignedPayload.{SignedPayload, payload_bytes_to_sign, nanos}
use funtonic.Crypto.KeyStore.{KeyStoreBackend, panic, verify_signature}
use funtonic.Crypto.KeyStore.Memory
use funtonic.Crypto.KeyStore.Memory.{MemoryKeyStore, memory_backend}
use funtonic.Crypto.KeyStore.Store.{decode_payload, max_system_secs}

module _ (B : KeyStoreBackend) {P : Type 0} (message : Message P) where
  -- A payload is accepted as `p` exactly when its expiry time can be represented and has not passed,
  -- its key verifies its signature over the payload, the nonce and the expiry time, and its bytes
  -- decode to `p`.
  pub decode_payload-eq-ok_iff :
      (unix_epoch now : ℕ) (payload : SignedPayload) (s : B.State) (p : P)
      → (decode_payload B message unix_epoch now payload s ≡ ok p) ↔ (
          (payload.valid_until_secs ≤ max_system_secs)
          × (now ≤ unix_epoch + payload.valid_until_secs * nanos)
          × (B.verify payload.key_id (payload_bytes_to_sign payload) payload.signature s ≡ ok tt)
          × (message.decode payload.payload ≡ ok p))
  unfolding decode_payload
  decode_payload-eq-ok_iff unix_epoch now payload s p = ground arith

verify_ne_panic :
    (ring : Ed25519) (id : String) (m signature : Bytes) (s : MemoryKeyStore)
    → Memory.verify ring id m signature s ≢ err panic
unfolding Memory.verify verify_signature
verify_ne_panic ring id m signature s h = ground arith

-- Over the memory backend a payload makes the thread panic exactly when its expiry time, which the
-- sender chooses, lies beyond what the system can represent: this is tested before the signature.
pub decode_payload-eq-panic_iff :
    (ring : Ed25519) {P : Type 0} (message : Message P) (unix_epoch now : ℕ)
    (payload : SignedPayload) (s : MemoryKeyStore)
    → (decode_payload (memory_backend ring) message unix_epoch now payload s ≡ err panic)
      ↔ (max_system_secs < payload.valid_until_secs)
unfolding decode_payload
decode_payload-eq-panic_iff ring message unix_epoch now payload s =
    ground (
      arith,
      verify_ne_panic ring payload.key_id (payload_bytes_to_sign payload) payload.signature s,
    )
