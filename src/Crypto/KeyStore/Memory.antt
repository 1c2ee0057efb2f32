-- ===== src/Crypto/KeyStore/Memory.antt =====
-- `MemoryKeyStoreBackend`: a map behind a lock.
use funtonic.Base.{String, Bool, false, [], Result, ok, err, Lock, acquire, ◌>>=◌}
use funtonic.Base.Action.{Action}
use funtonic.Base.HashMap
use funtonic.Crypto.Library.{Bytes, Ed25519}
use funtonic.Crypto.KeyStore.{
  Keys, KeyStoreError, poison, KeyStoreBackend, verify_signature, stored_as, take_key,
}

abbrev pub MemoryKeyStore : Type 0
MemoryKeyStore = Lock Keys

-- `Default::default()`
abbrev pub memory_keystore : MemoryKeyStore
memory_keystore = record { poisoned = false; inner = [] }

abbrev store : MemoryKeyStore → Keys → MemoryKeyStore
store s keys = record s { inner = keys }

-- What a method does with the map once it holds the lock for writing.
abbrev with_lock {ℓ} :
    {A : Type ℓ}
    → MemoryKeyStore
    → (Keys → Result A KeyStoreError × Keys)
    → Result A KeyStoreError × MemoryKeyStore
with_lock s f = elim (acquire s poison) [
  | err e ↦ (err e, s)
  | ok keys ↦ let (r, keys') = f keys in (r, store s keys')
]

unfoldable pub insert_key : String → Bytes → Action MemoryKeyStore KeyStoreError (Unit {0})
unfolding HashMap.insert
insert_key key_id key_bytes s = with_lock s (λ keys. (ok tt, HashMap.insert key_id key_bytes keys))

unfoldable pub remove_key : String → Action MemoryKeyStore KeyStoreError Bytes
remove_key key_id s = with_lock s (take_key key_id)

unfoldable pub list_all : MemoryKeyStore → Result Keys KeyStoreError
list_all s = acquire s poison

unfoldable pub has_key : String → Bytes → MemoryKeyStore → Result Bool KeyStoreError
has_key key_id key_bytes s = do keys ← acquire s poison; ok (stored_as key_id key_bytes keys)

unfoldable pub verify :
    Ed25519 → String → Bytes → Bytes → MemoryKeyStore → Result (Unit {0}) KeyStoreError
verify ring key_id payload signature s = do
  keys ← acquire s poison
  verify_signature ring keys key_id payload signature

-- `impl KeyStoreBackend for MemoryKeyStoreBackend`
abbrev pub memory_backend : Ed25519 → KeyStoreBackend
memory_backend ring = record {
  State = MemoryKeyStore;
  insert_key = insert_key;
  verify = verify ring;
  list_all = list_all;
  remove_key = remove_key;
  has_key = has_key;
}
