-- ===== src/TaskServer/Start.antt =====
-- `TaskServer::new` of common/src/task_server.rs, and what the keys of its configuration become.
use funtonic.Base.{
  ℕ, String, ◌≡◌, ◌∙◌, ap, sym, refl, false, Option, none, some, [], ◌∷◌, Result, ok, ◌>>=◌,
  and_then_ok, ok-injective, arith, eq_iff, ◌==◌, Result-cases, Bool-cases, inl, inr,
}
use funtonic.Base.HashMap
use funtonic.Base.HashMap.{HashMap, NodupKeys}
use funtonic.Crypto.Library.{Bytes}
use funtonic.Crypto.KeyStore.{KeyStoreError}
use funtonic.Crypto.KeyStore.Memory
use funtonic.Crypto.KeyStore.Memory.{MemoryKeyStore, memory_keystore}
use funtonic.Crypto.KeyStore.Store.{init_from_map, register_key}
use funtonic.TaskServer.Env.{Env}
use funtonic.TaskServer.State.{TaskServer}
use funtonic.TaskServer.Registry.{memory}
use funtonic.TaskServer.Authority.Reach.{Reach, Reach-admin}

-- A memory key store with the keys of the configuration.
unfoldable pub configured : (E : Env) → HashMap String → Result MemoryKeyStore KeyStoreError
unfolding init_from_map
configured E map =
    let (result, store) = init_from_map (memory E) E.base64 map memory_keystore in
    result >>= λ _. ok store

-- The databases are given as they were opened, the world and the draws as they are.
unfoldable pub new :
    (E : Env)
    → HashMap String
    → HashMap String
    → E.meta_database.State
    → E.key_database.State
    → E.key_database.State
    → E.channels.World
    → ℕ
    → Result (TaskServer E) KeyStoreError
unfolding configured
new E authorized_keys admin_authorized_keys metas trusted unapproved world draws = do
  authorized ← configured E authorized_keys
  admin ← configured E admin_authorized_keys
  ok (record {
    executors = record { poisoned = false; inner = [] };
    tasks_sinks = record { poisoned = false; inner = [] };
    executor_meta_database = metas;
    authorized_keys = authorized;
    authorized_admin_keys = admin;
    trusted_executor_keystore = trusted;
    unapproved_executor_keystore = unapproved;
    world = world;
    draws = draws;
  })

module _ (E : Env) where
  -- The stored keys are the decoded texts of the map.
  abbrev pub Configured : HashMap String → String → Option Bytes → Option Bytes → Type 0
  Configured map id before after =
      ((text : String)
        → HashMap.get id map ≡ some text
        → (k : Bytes) × (E.base64.decode text ≡ ok k) × (after ≡ some k))
      × (HashMap.get id map ≡ none → after ≡ before)

  abbrev usable : HashMap Bytes → MemoryKeyStore
  usable keys = record { poisoned = false; inner = keys }

  init_step :
      (key text : String) (bytes : Bytes) (map : HashMap String) (keys : HashMap Bytes)
      → E.base64.decode text ≡ ok bytes
      → init_from_map (memory E) E.base64 ((key, text) ∷ map) (usable keys)
        ≡ init_from_map (memory E) E.base64 map (usable (HashMap.insert key bytes keys))
  unfolding init_from_map register_key Memory.insert_key
  init_step key text bytes map keys decoded = rw decoded refl

  missing_after :
      (key : String) (map : HashMap String)
      → HashMap.contains_key key map ≡ false
      → HashMap.get key map ≡ none
  unfolding HashMap.contains_key
  missing_after key map fresh = ground arith

  Configured-cons :
      (key text : String) (bytes : Bytes) (map : HashMap String) (id : String)
      (inner : HashMap Bytes) (after : Option Bytes)
      → HashMap.contains_key key map ≡ false
      → E.base64.decode text ≡ ok bytes
      → Configured map id (HashMap.get id (HashMap.insert key bytes inner)) after
      → Configured ((key, text) ∷ map) id (HashMap.get id inner) after
  unfolding HashMap.get
  Configured-cons key text bytes map id inner after fresh decoded (found, missing) =
      elim (Bool-cases (key == id)) [
        | inl same ↦ (
          λ text' h. (
            bytes,
            ground (arith, same, h, decoded),
            ground (
              arith,
              same,
              eq_iff key id,
              missing_after key map fresh,
              missing,
              HashMap.get-insert id key bytes inner,
            ),
          ),
          λ h. ground (arith, same, h),
        )
        | inr differ ↦ (
          λ text' h. found text' (ground (arith, differ, h)),
          λ h. ground (arith, differ, h, missing, HashMap.get-insert id key bytes inner),
        )
      ]

  init_from_map_ok :
      (map : HashMap String) (keys : HashMap Bytes)
      → NodupKeys map
      → (init_from_map (memory E) E.base64 map (usable keys)).0 ≡ ok tt
      → (id : String)
      → Configured map id
          (HashMap.get id keys)
          (HashMap.get id (init_from_map (memory E) E.base64 map (usable keys)).1.inner)
  unfolding init_from_map HashMap.get
  init_from_map_ok [] keys u h id = (λ text found. absurd (ground arith), λ _. refl)
  init_from_map_ok ((key, text) ∷ map) keys (fresh, u) h id =
      elim (Result-cases (E.base64.decode text)) [
        | inr (e, failed) ↦ absurd (ground (arith, failed))
        | inl (bytes, decoded) ↦
            let next = init_step key text bytes map keys decoded in
            Configured-cons key text bytes map id keys _ fresh decoded (
              rw next (
                init_from_map_ok map (HashMap.insert key bytes keys) u
                  (ap (λ z. z.0) (sym next) ∙ h) id))
      ]

  -- Whatever requests a server has answered since it was made, its admin keys are those of the
  -- configuration: the decoded text under each name that the configuration has, and nothing under any
  -- other.
  pub Reach-new :
      (authorized_keys admin_authorized_keys : HashMap String) (metas : E.meta_database.State)
      (trusted unapproved : E.key_database.State) (world : E.channels.World) (draws : ℕ)
      (s t : TaskServer E)
      → NodupKeys admin_authorized_keys
      → new E authorized_keys admin_authorized_keys metas trusted unapproved world draws ≡ ok s
      → Reach E s t
      → (id : String)
      → Configured admin_authorized_keys id none (HashMap.get id t.authorized_admin_keys.inner)
  unfolding new configured HashMap.get
  Reach-new authorized_keys admin_authorized_keys metas trusted unapproved world draws s t u made
        reached id =
      let (authorized, _, g0) = and_then_ok (configured E authorized_keys) _ s made in
      let (admin, g1, g2) = and_then_ok (configured E admin_authorized_keys) _ s g0 in
      let (_, h, g3) =
        and_then_ok (init_from_map (memory E) E.base64 admin_authorized_keys memory_keystore).0 _
          admin g1 in
      let same =
        Reach-admin E s t reached
        ∙ ap (λ z. z.authorized_admin_keys) (sym (ok-injective _ s g2))
        ∙ sym (ok-injective _ admin g3) in
      rw same (init_from_map_ok admin_authorized_keys [] u h id)
