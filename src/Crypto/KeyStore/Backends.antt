-- ===== src/Crypto/KeyStore/Backends.antt =====
-- What a backend promises, and that both backends keep it.
use funtonic.Base.{
  String, Bool, true, false, ◌≡◌, ◌≢◌, ◌⊎◌, inl, inr, refl, some, arith, Result, ok, err, bytes_eq,
  bytes_eq_iff, ap, Bool-cases, Option-cases, Result-cases, ◌∙◌,
}
use funtonic.Base.HashMap
use mathlib.Core.Option.{some-injective}
use funtonic.Crypto.Library.{Bytes, Ed25519, Database, IsDatabase}
use funtonic.Crypto.KeyStore.{
  Keys, KeyStoreError, KeyStoreBackend, verify_signature, stored_as, take_key,
}
use funtonic.Crypto.KeyStore.Memory
use funtonic.Crypto.KeyStore.Memory.{MemoryKeyStore, memory_backend}
use funtonic.Crypto.KeyStore.File
use funtonic.Crypto.KeyStore.File.{file_backend}

-- The state of a backend stands for a map of keys, which the methods that succeed read and change
-- as their names say. One that fails has changed nothing, or has made its change in memory.
pub record IsKeyStore (ring : Ed25519) (B : KeyStoreBackend) (keys : B.State → Keys) : Type 0 where
  pub insert_ok :
      (id : String) (k : Bytes) (s : B.State)
      → (B.insert_key id k s).0 ≡ ok tt
      → keys (B.insert_key id k s).1 ≡ HashMap.insert id k (keys s)
  pub insert_err :
      (id : String) (k : Bytes) (s : B.State) (e : KeyStoreError)
      → (B.insert_key id k s).0 ≡ err e
      → (keys (B.insert_key id k s).1 ≡ keys s)
        ⊎ (keys (B.insert_key id k s).1 ≡ HashMap.insert id k (keys s))
  pub remove_ok :
      (id : String) (s : B.State) (k : Bytes)
      → (B.remove_key id s).0 ≡ ok k
      → (HashMap.get id (keys s) ≡ some k)
        × (keys (B.remove_key id s).1 ≡ HashMap.remove id (keys s))
  pub remove_err :
      (id : String) (s : B.State) (e : KeyStoreError)
      → (B.remove_key id s).0 ≡ err e
      → (keys (B.remove_key id s).1 ≡ keys s)
        ⊎ (keys (B.remove_key id s).1 ≡ HashMap.remove id (keys s))
  pub has_key_ok :
      (id : String) (k : Bytes) (s : B.State) (b : Bool)
      → B.has_key id k s ≡ ok b
      → ((b ≡ true) × (HashMap.get id (keys s) ≡ some k))
        ⊎ ((b ≡ false) × (HashMap.get id (keys s) ≢ some k))
  pub list_ok : (s : B.State) (m : Keys) → B.list_all s ≡ ok m → m ≡ keys s
  pub verify_ok :
      (id : String) (message signature : Bytes) (s : B.State)
      → B.verify id message signature s ≡ ok tt
      → (k : Bytes) × (HashMap.get id (keys s) ≡ some k) × (ring.verify k message signature ≡ true)

stored_as_cases :
    (id : String) (k : Bytes) (m : Keys)
    → ((stored_as id k m ≡ true) × (HashMap.get id m ≡ some k))
      ⊎ ((stored_as id k m ≡ false) × (HashMap.get id m ≢ some k))
unfolding stored_as
stored_as_cases id k m = elim (Option-cases (HashMap.get id m)) [
  | inl missing ↦ inr (rw (missing, stored_as) refl, λ e. cc)
  | inr (b, found) ↦ elim (Bool-cases (bytes_eq b k)) [
    | inl same ↦ inl (rw (found, stored_as) same, rw found (ap some ((bytes_eq_iff b k).0 same)))
    | inr differ ↦ inr (
      rw (found, stored_as) differ,
      λ e. cc (differ, (bytes_eq_iff b k).1 (some-injective b k (cc))),
    )
  ]
]

verify_signature_ok :
    (ring : Ed25519) (m : Keys) (id : String) (message signature : Bytes)
    → verify_signature ring m id message signature ≡ ok tt
    → (k : Bytes) × (HashMap.get id m ≡ some k) × (ring.verify k message signature ≡ true)
unfolding verify_signature
verify_signature_ok ring m id message signature h = ground arith

take_key_ok :
    (id : String) (m : Keys) (k : Bytes)
    → (take_key id m).0 ≡ ok k
    → (HashMap.get id m ≡ some k) × ((take_key id m).1 ≡ HashMap.remove id m)
unfolding take_key
take_key_ok id m k h = ground arith

take_key_err :
    (id : String) (m : Keys) (e : KeyStoreError) → (take_key id m).0 ≡ err e → (take_key id m).1 ≡ m
unfolding take_key
take_key_err id m e h = ground arith

-- The memory backend keeps the promise, with its map as what the state stands for.
pub memory_backend-IsKeyStore :
    (ring : Ed25519) → IsKeyStore ring (memory_backend ring) (λ s. s.inner)
unfolding Memory.insert_key Memory.remove_key Memory.has_key Memory.list_all Memory.verify
memory_backend-IsKeyStore ring = record {
  insert_ok = λ id k s h. ground arith;
  insert_err = λ id k s e h. ground arith;
  remove_ok = λ id s k h. ground (arith, take_key_ok id s.inner k);
  remove_err = λ id s e h. ground (arith, take_key_err id s.inner e);
  has_key_ok = λ id k s b h. ground (arith, stored_as_cases id k s.inner);
  list_ok = λ s m h. ground arith;
  verify_ok = λ id message signature s h.
      ground (arith, verify_signature_ok ring s.inner id message signature);
}

module _ (db : Database Keys) (lawful : IsDatabase db) where
  open lawful use {contents, read_ok, write_ok, write_err, contents-save}

  -- The closures that the file backend hands to its database.
  abbrev inserting : String → Bytes → Keys → Unit {0} × Keys
  inserting id k keys = (tt, HashMap.insert id k keys)

  insert_key_ok :
      (id : String) (k : Bytes) (s : db.State)
      → (File.insert_key db id k s).0 ≡ ok tt
      → contents (File.insert_key db id k s).1 ≡ HashMap.insert id k (contents s)
  unfolding File.insert_key
  insert_key_ok id k s h =
      ground (arith, write_ok (inserting id k) s tt, contents-save (db.write (inserting id k) s).1)

  insert_key_err :
      (id : String) (k : Bytes) (s : db.State) (e : KeyStoreError)
      → (File.insert_key db id k s).0 ≡ err e
      → (contents (File.insert_key db id k s).1 ≡ contents s)
        ⊎ (contents (File.insert_key db id k s).1 ≡ HashMap.insert id k (contents s))
  unfolding File.insert_key
  insert_key_err id k s e h = elim (Result-cases (db.write (inserting id k) s).0) [
    | inl (u, done) ↦ inr (rw done (contents-save _ ∙ (write_ok (inserting id k) s u done).1))
    | inr (x, failed) ↦ inl (rw failed (write_err (inserting id k) s x failed))
  ]

  remove_key_ok :
      (id : String) (s : db.State) (k : Bytes)
      → (File.remove_key db id s).0 ≡ ok k
      → (HashMap.get id (contents s) ≡ some k)
        × (contents (File.remove_key db id s).1 ≡ HashMap.remove id (contents s))
  unfolding File.remove_key
  remove_key_ok id s k h = elim (Result-cases (db.write (take_key id) s).0) [
    | inl (taken, done) ↦ ground (
      arith,
      done,
      write_ok (take_key id) s taken done,
      take_key_ok id (contents s) k,
      contents-save (db.write (take_key id) s).1,
    )
    | inr (x, failed) ↦ ground (arith, failed)
  ]

  removal :
      (id : String) (s : db.State) (taken : Result Bytes KeyStoreError)
      → (db.write (take_key id) s).0 ≡ ok taken
      → ((k : Bytes) × (taken ≡ ok k)) ⊎ ((e : KeyStoreError) × (taken ≡ err e))
      → (contents (File.remove_key db id s).1 ≡ contents s)
        ⊎ (contents (File.remove_key db id s).1 ≡ HashMap.remove id (contents s))
  unfolding File.remove_key
  removal id s taken done (inl (k, found)) = inr (
      ground (
        arith,
        done,
        write_ok (take_key id) s taken done,
        take_key_ok id (contents s) k,
        contents-save (db.write (take_key id) s).1,
      ))
  removal id s taken done (inr (e, missing)) =
      inl
        (ground (arith, done, write_ok (take_key id) s taken done, take_key_err id (contents s) e))

  remove_key_err :
      (id : String) (s : db.State) (e : KeyStoreError)
      → (File.remove_key db id s).0 ≡ err e
      → (contents (File.remove_key db id s).1 ≡ contents s)
        ⊎ (contents (File.remove_key db id s).1 ≡ HashMap.remove id (contents s))
  unfolding File.remove_key
  remove_key_err id s e h = elim (Result-cases (db.write (take_key id) s).0) [
    | inl (taken, done) ↦ removal id s taken done (Result-cases taken)
    | inr (x, failed) ↦ inl (rw failed (write_err (take_key id) s x failed))
  ]

  has_key_ok :
      (id : String) (k : Bytes) (s : db.State) (b : Bool)
      → File.has_key db id k s ≡ ok b
      → ((b ≡ true) × (HashMap.get id (contents s) ≡ some k))
        ⊎ ((b ≡ false) × (HashMap.get id (contents s) ≢ some k))
  unfolding File.has_key
  has_key_ok id k s b h = elim (Result-cases (db.read s)) [
    | inl (keys, done) ↦
        ground (arith, done, read_ok s keys done, stored_as_cases id k (contents s))
    | inr (x, failed) ↦ ground (arith, failed)
  ]

  list_ok : (s : db.State) (m : Keys) → File.list_all db s ≡ ok m → m ≡ contents s
  unfolding File.list_all
  list_ok s m h = ground (arith, read_ok s m)

  verify_ok :
      (ring : Ed25519) (id : String) (message signature : Bytes) (s : db.State)
      → File.verify db ring id message signature s ≡ ok tt
      → (k : Bytes) × (HashMap.get id (contents s) ≡ some k)
        × (ring.verify k message signature ≡ true)
  unfolding File.verify
  verify_ok ring id message signature s h = elim (Result-cases (db.read s)) [
    | inl (keys, done) ↦
        verify_signature_ok ring (contents s) id message signature
          (ground (arith, done, read_ok s keys done))
    | inr (x, failed) ↦ ground (arith, failed)
  ]

-- The file backend keeps the promise, with the data in the database's memory as what the state
-- stands for.
pub file_backend-IsKeyStore :
    (ring : Ed25519) (db : Database Keys) (lawful : IsDatabase db)
    → IsKeyStore ring (file_backend db ring) (lawful.contents)
file_backend-IsKeyStore ring db lawful = record {
  insert_ok = insert_key_ok db lawful;
  insert_err = insert_key_err db lawful;
  remove_ok = remove_key_ok db lawful;
  remove_err = remove_key_err db lawful;
  has_key_ok = has_key_ok db lawful;
  list_ok = list_ok db lawful;
  verify_ok = verify_ok db lawful ring;
}
