-- ===== src/Crypto/Samples.antt =====
-- Small libraries that meet the assumptions of Crypto/Library, for the tests.
use funtonic.Base.{ℕ, String, ◌≡◌, refl, [], ◌∷◌, ◌++◌, Result, ok, err, bytes_eq, bytes_eq_iff}
use funtonic.Crypto.Library.{
  Bytes, Ed25519, IsSignature, Base64, Message, IsMessage, Database, IsDatabase,
}

-- The signature is the key followed by the message.
abbrev pub toy_ring : Ed25519
toy_ring = record {
  KeyPair = Bytes;
  from_pkcs8 = λ b. ok b;
  public_key = λ k. k;
  sign = λ k m. k ++ m;
  verify = λ k m s. bytes_eq s (k ++ m);
}

pub toy_ring-IsSignature : IsSignature toy_ring
toy_ring-IsSignature = record { verify-sign = λ k m. (bytes_eq_iff (k ++ m) (k ++ m)).1 refl }

-- One text, for one key.
abbrev pub toy_base64 : Base64
toy_base64 = record { encode = λ b. "AQI="; decode = λ t. ok (1 ∷ 2 ∷ []) }

abbrev pub read_number : Bytes → Result ℕ String
read_number (n ∷ []) = ok n
read_number _ = err "no number"

abbrev pub toy_message : Message ℕ
toy_message = record { encode = λ n. ok (n ∷ []); decode = read_number }

ok-injective : (b c : Bytes) → ◌≡◌ {A = Result Bytes String} (ok b) (ok c) → b ≡ c
ok-injective b c e = cc

pub toy_message-IsMessage : IsMessage toy_message
toy_message-IsMessage = record { decode-encode = λ p b e. rw (← ok-injective (p ∷ []) b e) refl }

-- A database whose file never fails.
abbrev pub toy_database : (D : Type 0) → Database D
toy_database D = record {
  State = D;
  read = λ s. ok s;
  write = λ f s. (ok (f s).0, (f s).1);
  save = λ s. (ok tt, s);
}

unfoldable pub toy_database-IsDatabase : (D : Type 0) → IsDatabase (toy_database D)
toy_database-IsDatabase D = record {
  contents = λ s. s;
  read_ok = λ s d e. cc;
  write_ok = λ f s r e. (cc, refl);
  write_err = λ f s x e. cc;
  contents-save = λ s. refl;
}
