-- ===== src/Executor/Orders.antt =====
-- An executor does what signed tasks say, and nothing else.
use mathlib.Core.List.{Mem}
use funtonic.Base.{
  ℕ, String, ◌≡◌, ◌⊎◌, inl, inr, ap, refl, true, Option, none, some, List, [], ◌∷◌, ◌++◌, Result,
  ok, err, All, arith, Option-cases,
}
use funtonic.Base.HashMap
use funtonic.Base.HashMap.{HashMap}
use funtonic.Crypto.SignedPayload.{SignedPayload, Ed25519Key}
use funtonic.Crypto.KeyStore.{KeyStoreError}
use funtonic.Crypto.KeyStore.Memory.{MemoryKeyStore, memory_backend}
use funtonic.Crypto.KeyStore.Store.{decode_payload}
use funtonic.TaskServer.Protocol.{
  GetTaskStreamReply, LaunchTaskRequestPayload, Task, execute_command, streaming_payload,
  authorize_key, revoke_key, ExecutionResult, task_rejected, task_completed,
}
use funtonic.Executor.Connection
use funtonic.Executor.Connection.{ConfigurationModification, add_key, unchanged}
use funtonic.Executor.Dispatch.{
  Client, Executor, sign, single_execution_result, spawn, run_task, run_payload, react,
}

module _ (C : Client) (authorized_keys : HashMap String) (key_store : MemoryKeyStore)
    (client_id : String) (signing_key : Ed25519Key) where
  -- The reply brings a payload that decodes to the task under an authorized key, at some time.
  abbrev pub Signed : GetTaskStreamReply → Task → Type 0
  Signed reply task =
      (payload : SignedPayload) × (now : ℕ) × (reply.payload ≡ some payload)
      × (decode_payload (memory_backend C.ring) C.launch_message C.unix_epoch now payload key_store
          ≡ ok (record { task = some task }))

  single_execution_result-started :
      (r : ExecutionResult) (id task_id : String) (k : Ed25519Key) (s : Executor C)
      → (single_execution_result C r id task_id k s).1.started ≡ s.started
  unfolding single_execution_result sign
  single_execution_result-started r id task_id k s = ground arith

  -- What a task does to the list of commands that were started.
  run_task-started :
      (task_id : String) (task : Task) (s : Executor C)
      → let t = (run_task C authorized_keys client_id signing_key task_id task s).1 in
        (t.started ≡ s.started)
        ⊎ ((command : String) × (task ≡ execute_command command)
            × (t.started ≡ s.started ++ (task_id, command) ∷ []))
  unfolding run_task spawn
  run_task-started task_id (execute_command command) s = inr (command, refl, refl)
  run_task-started task_id (streaming_payload p) s = inl (
      ground (
        arith,
        single_execution_result-started (task_rejected "Streaming not yet implemented") client_id
            task_id signing_key s,
      ))
  run_task-started task_id (authorize_key k) s = inl (
      ground
        (arith, single_execution_result-started (task_completed 0) client_id task_id signing_key s))
  run_task-started task_id (revoke_key k) s = inl (
      ground (
        arith,
        single_execution_result-started (task_completed 0) client_id task_id signing_key s,
        single_execution_result-started (task_rejected (C.unknown_key k)) client_id task_id
            signing_key s,
      ))

  -- What a task does to the configuration.
  abbrev pub Asks : Task → ConfigurationModification → Type 0
  Asks task (add_key id bytes) = task ≡ authorize_key (record { key_id = id; key_bytes = bytes })
  Asks task (Connection.revoke_key id) =
      (task ≡ revoke_key id) × (HashMap.contains_key id authorized_keys ≡ true)
  Asks task unchanged = ⊥

  run_task_modifies :
      (task_id : String) (task : Task) (s : Executor C) (m : ConfigurationModification)
      → (run_task C authorized_keys client_id signing_key task_id task s).0 ≡ ok (some m)
      → Asks task m
  unfolding run_task spawn
  run_task_modifies task_id (execute_command command) s m h = ground arith
  run_task_modifies task_id (streaming_payload p) s m h = ground arith
  run_task_modifies task_id (authorize_key k) s (add_key id bytes) h = ground arith
  run_task_modifies task_id (authorize_key k) s (Connection.revoke_key id) h = ground arith
  run_task_modifies task_id (authorize_key k) s unchanged h = ground arith
  run_task_modifies task_id (revoke_key k) s (add_key id bytes) h = ground arith
  run_task_modifies task_id (revoke_key k) s (Connection.revoke_key id) h = ground arith
  run_task_modifies task_id (revoke_key k) s unchanged h = ground arith

  task-started :
      (task_id : String) (o : Option Task) (s : Executor C)
      → let t =
          (run_payload C authorized_keys client_id signing_key task_id
            (ok (record { task = o }))
            s).1 in
        (t.started ≡ s.started)
        ⊎ ((command : String) × (o ≡ some (execute_command command))
            × (t.started ≡ s.started ++ (task_id, command) ∷ []))
  unfolding run_payload
  task-started task_id none s = inl refl
  task-started task_id (some task) s = elim (run_task-started task_id task s) [
    | inl same ↦ inl same
    | inr (command, e, more) ↦ inr (command, ap some e, more)
  ]

  rejection-started :
      (task_id : String) (e : KeyStoreError) (s : Executor C)
      → (run_payload C authorized_keys client_id signing_key task_id (err e) s).1.started
        ≡ s.started
  unfolding run_payload
  rejection-started task_id e s = ground (
    arith,
    single_execution_result-started (task_rejected (C.undecodable task_id e)) client_id task_id
        signing_key s,
  )

  rejection_modifies :
      (task_id : String) (e : KeyStoreError) (s : Executor C) (m : ConfigurationModification)
      → (run_payload C authorized_keys client_id signing_key task_id (err e) s).0 ≡ ok (some m)
      → ⊥
  unfolding run_payload
  rejection_modifies task_id e s m h = ground arith

  payload-started :
      (task_id : String) (r : Result LaunchTaskRequestPayload KeyStoreError) (s : Executor C)
      → let t = (run_payload C authorized_keys client_id signing_key task_id r s).1 in
        (t.started ≡ s.started)
        ⊎ ((command : String) × (r ≡ ok (record { task = some (execute_command command) }))
            × (t.started ≡ s.started ++ (task_id, command) ∷ []))
  payload-started task_id (err e) s = inl (rejection-started task_id e s)
  payload-started task_id (ok p) s = elim (task-started task_id p.task s) [
    | inl same ↦ inl same
    | inr (command, e, more) ↦ inr (command, ap (λ o. ok (record { task = o })) e, more)
  ]

  payload_modifies :
      (task_id : String) (r : Result LaunchTaskRequestPayload KeyStoreError) (s : Executor C)
      (m : ConfigurationModification)
      → (run_payload C authorized_keys client_id signing_key task_id r s).0 ≡ ok (some m)
      → (task : Task) × (r ≡ ok (record { task = some task })) × Asks task m
  unfolding run_payload
  payload_modifies task_id (err e) s m h = absurd (rejection_modifies task_id e s m h)
  payload_modifies task_id (ok p) s m h = asked p.task h
    where
      asked :
          (o : Option Task)
          → (run_payload C authorized_keys client_id signing_key task_id
              (ok (record { task = o }))
              s).0
            ≡ ok (some m)
          → (task : Task) × (◌≡◌ {A = Result LaunchTaskRequestPayload KeyStoreError}
              (ok (record { task = o }))
              (ok (record { task = some task })))
            × Asks task m
      asked none h = absurd (ground arith)
      asked (some task) h = (task, refl, run_task_modifies task_id task s m h)

  -- A reply either starts nothing, or the command that it brings, signed.
  pub react-started :
      (reply : GetTaskStreamReply) (s : Executor C)
      → let t = (react C authorized_keys key_store client_id signing_key reply s).1 in
        (t.started ≡ s.started)
        ⊎ ((command : String) × Signed reply (execute_command command)
            × (t.started ≡ s.started ++ (reply.task_id, command) ∷ []))
  unfolding react
  react-started reply s = elim (Option-cases reply.payload) [
    | inl missing ↦ inl (rw missing refl)
    | inr (p, given) ↦
        elim (payload-started reply.task_id
          (decode_payload (memory_backend C.ring) C.launch_message C.unix_epoch (C.clock s.net) p
            key_store)
          s) [
            | inl same ↦ inl (rw given same)
            | inr (command, decoded, more) ↦
                inr (command, (p, C.clock s.net, given, decoded), rw given more)
          ]
  ]

  pub react_modifies :
      (reply : GetTaskStreamReply) (s : Executor C) (m : ConfigurationModification)
      → (react C authorized_keys key_store client_id signing_key reply s).0 ≡ ok (some m)
      → (task : Task) × Signed reply task × Asks task m
  unfolding react
  react_modifies reply s m h = elim (Option-cases reply.payload) [
    | inl missing ↦ absurd (ground (arith, missing))
    | inr (p, given) ↦
        let (task, decoded, asked) =
          payload_modifies reply.task_id
            (decode_payload (memory_backend C.ring) C.launch_message C.unix_epoch (C.clock s.net) p
              key_store)
            s m (rw given at h) in
        (task, (p, C.clock s.net, given, decoded), asked)
  ]

  -- The command was brought, signed, by one of the messages under the task id.
  abbrev pub Ordered : List (Result GetTaskStreamReply String) → String × String → Type 0
  Ordered messages (task_id, command) =
      (reply : GetTaskStreamReply) × Mem (ok reply) messages
      × (reply.task_id ≡ task_id)
      × Signed reply (execute_command command)

  -- All the commands that were started since are ordered by the messages.
  abbrev pub Obeys :
      List (Result GetTaskStreamReply String)
      → List (String × String)
      → List (String × String)
      → Type 0
  Obeys messages before after =
      (new : List (String × String)) × (after ≡ before ++ new) × All (Ordered messages) new

  -- A change of the configuration that ends the loop was asked for by one of the messages, signed.
  abbrev pub Caused : List (Result GetTaskStreamReply String) → ConfigurationModification → Type 0
  Caused messages m =
      (reply : GetTaskStreamReply) × (task : Task) × Mem (ok reply) messages
      × Signed reply task
      × Asks task m
