-- ===== src/Crypto/SignedPayload.antt =====
-- common/src/crypto/signed_payload.rs, with the signing key of common/src/config.rs.
pub mod Injective
use funtonic.Base.{
  ℕ, ◌+◌, ◌-◌, ◌*◌, ◌/◌, String, ◌≡◌, Option, none, some, List, ◌++◌, Result, ok, err, map_err,
  ◌>>=◌, ltb, if◌then◌else◌,
}
use funtonic.Crypto.LittleEndian.{le_bytes, u64_le_bytes}
use funtonic.Crypto.Library.{Bytes, Ed25519, Base64, Message}

-- `payload::SignedPayload`; the two numbers are `u64`.
pub record SignedPayload : Type 0 where
  pub payload : Bytes
  pub nonce : ℕ
  pub valid_until_secs : ℕ
  pub signature : Bytes
  pub key_id : String

unfoldable pub to_sign_from_exploded_payload : Bytes → ℕ → ℕ → Bytes
to_sign_from_exploded_payload payload nonce valid_until_secs =
    (payload ++ u64_le_bytes nonce) ++ u64_le_bytes valid_until_secs

unfoldable pub payload_bytes_to_sign : SignedPayload → Bytes
unfolding to_sign_from_exploded_payload
payload_bytes_to_sign p = to_sign_from_exploded_payload p.payload p.nonce p.valid_until_secs

pub data EncodePayloadError : Type 0 where
  key_rejected encode_error : String → EncodePayloadError
  system_clock_is_before_unix_epoch : EncodePayloadError

-- `ED25519Key` of common/src/config.rs
pub record Ed25519Key : Type 0 where
  pub id : String
  pub pkcs8 : String
  pub public_key : Option String

unfoldable pub to_bytes : Base64 → Ed25519Key → Result Bytes String
to_bytes base64 key = base64.decode key.pkcs8

abbrev pub nanos : ℕ
nanos = 1_000_000_000

-- A time is a number of nanoseconds since some instant before every clock reading, `unix_epoch` the
-- time of the Unix epoch; `duration_since` fails for an earlier time.
unfoldable pub duration_since : ℕ → ℕ → Result ℕ EncodePayloadError
duration_since time epoch =
    if ltb time epoch then err system_clock_is_before_unix_epoch else ok (time - epoch)

module _ (ring : Ed25519) (base64 : Base64) (unix_epoch : ℕ) {P : Type 0}
    (message : Message P) where
  -- The reading of the clock and the random nonce are arguments.
  unfoldable pub encode_and_sign :
      P → Ed25519Key → ℕ → ℕ → ℕ → Result SignedPayload EncodePayloadError
  unfolding to_bytes duration_since
  encode_and_sign payload key validity now nonce = do
    since_epoch ← duration_since (now + validity) unix_epoch
    bytes ← map_err key_rejected (to_bytes base64 key)
    key_pair ← map_err key_rejected (ring.from_pkcs8 bytes)
    buf ← map_err encode_error (message.encode payload)
    let valid_until_secs = since_epoch / nanos
    ok (record {
      payload = buf;
      nonce = nonce;
      valid_until_secs = valid_until_secs;
      signature = ring.sign key_pair (to_sign_from_exploded_payload buf nonce valid_until_secs);
      key_id = key.id;
    })
