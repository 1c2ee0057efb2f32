-- ===== src/Crypto/Library.antt =====
-- What the code uses of its libraries: ring, data-encoding, prost and rustbreak. Their errors are
-- kept as texts.
use funtonic.Base.{ℕ, String, ◌≡◌, Bool, true, List, Result, ok, err}
use funtonic.Base.Action.{Action}

abbrev pub Bytes : Type 0
Bytes = List ℕ

-- `ring::signature` for ED25519.
pub record Ed25519 : Type 1 where
  pub KeyPair : Type 0
  pub from_pkcs8 : Bytes → Result KeyPair String
  pub public_key : KeyPair → Bytes
  pub sign : KeyPair → Bytes → Bytes
  -- `UnparsedPublicKey::verify`: the key, the message, the signature
  pub verify : Bytes → Bytes → Bytes → Bool

-- A signature is verified with the public key of the pair that made it.
pub record IsSignature (ring : Ed25519) : Type 0 where
  pub verify-sign :
      (k : ring.KeyPair) (m : Bytes) → ring.verify (ring.public_key k) m (ring.sign k m) ≡ true

-- `data_encoding::BASE64`
pub record Base64 : Type 0 where
  pub encode : Bytes → String
  pub decode : String → Result Bytes String

-- `prost::Message` for one type of messages.
pub record Message (P : Type 0) : Type 0 where
  pub encode : P → Result Bytes String
  pub decode : Bytes → Result P String

pub record IsMessage {P : Type 0} (message : Message P) : Type 0 where
  pub decode-encode : (p : P) (b : Bytes) → message.encode p ≡ ok b → message.decode b ≡ ok p

-- The message without fields (`()`) skips the fields of an encoded message of another type.
pub record Skips {P : Type 0} (message : Message P) (unit : Message (Unit {0})) : Type 0 where
  pub decode-encode : (p : P) (b : Bytes) → message.encode p ≡ ok b → unit.decode b ≡ ok tt

-- `rustbreak::FileDatabase` over data of type `D`. `write` takes the closure that changes the data.
pub record Database (D : Type 0) : Type 1 where
  pub State : Type 0
  pub read : State → Result D String
  pub write : {R : Type 0} → (D → R × D) → Action State String R
  pub save : Action State String (Unit {0})

-- Reads and successful writes act on the data in memory, failed writes and saves leave it alone.
pub record IsDatabase {D : Type 0} (db : Database D) : Type 1 where
  pub contents : db.State → D
  pub read_ok : (s : db.State) (d : D) → db.read s ≡ ok d → d ≡ contents s
  pub write_ok :
      {R : Type 0} (f : D → R × D) (s : db.State) (r : R)
      → (db.write f s).0 ≡ ok r
      → (r ≡ (f (contents s)).0) × (contents (db.write f s).1 ≡ (f (contents s)).1)
  pub write_err :
      {R : Type 0} (f : D → R × D) (s : db.State) (e : String)
      → (db.write f s).0 ≡ err e
      → contents (db.write f s).1 ≡ contents s
  pub contents-save : (s : db.State) → contents (db.save s).1 ≡ contents s
