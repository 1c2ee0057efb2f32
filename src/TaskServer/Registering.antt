-- ===== src/TaskServer/Registering.antt =====
-- What `register_executor` of common/src/task_server.rs does to the connections of executors.
use funtonic.Base.{
  String, ◌≡◌, ◌≢◌, ◌∙◌, refl, ap, some, List, [], ◌∷◌, Result, ok, arith, eq_iff, Result-cases,
  Option-cases, inl, inr,
}
use funtonic.Base.Action.{Action, ◌>>=◌, ◌>>◌, bind_of_ok, bind_of_err}
use funtonic.ExecutorMeta.{ExecutorMeta}
use funtonic.Crypto.KeyStore.Store.{register_key}
use funtonic.TaskServer.Env.{Env}
use funtonic.TaskServer.Protocol.{
  GetTasksRequest, PublicKey, TaskServerError, database_error, key_store_error,
}
use funtonic.TaskServer.State.{TaskServer, on_authorized, on_metas, raise_as}
use funtonic.TaskServer.Registry.{
  memory, insert_executor, write_executor_meta_database, register_keys, register_meta,
  register_executor, meta_of_request,
}
use funtonic.Base.HashMap

module _ (E : Env) where
  abbrev KeepsExecutors : {X A : Type 0} → Action (TaskServer E) X A → Type 0
  KeepsExecutors m = (s : TaskServer E) → (m s).1.executors ≡ s.executors

  bind-KeepsExecutors :
      {X A B : Type 0} (m : Action (TaskServer E) X A) (f : A → Action (TaskServer E) X B)
      → KeepsExecutors m
      → ((a : A) → KeepsExecutors (f a))
      → KeepsExecutors (m >>= f)
  bind-KeepsExecutors m f km kf s = elim (Result-cases (m s).0) [
    | inl (a, done) ↦ ap (λ r. r.1.executors) (bind_of_ok m f s a done) ∙ (kf a (m s).1 ∙ km s)
    | inr (e, failed) ↦ ap (λ r. r.1.executors) (bind_of_err m f s e failed) ∙ km s
  ]

  register_keys-KeepsExecutors : (ks : List PublicKey) → KeepsExecutors (register_keys E ks)
  unfolding register_keys
  register_keys-KeepsExecutors [] s = refl
  register_keys-KeepsExecutors (k ∷ ks) s =
      bind-KeepsExecutors
        (raise_as key_store_error (on_authorized (register_key (memory E) k.key_id k.key_bytes)))
        (λ _. register_keys E ks) (λ _. refl) (λ _. register_keys-KeepsExecutors ks) s

  -- What `register_meta` does after the connection of the executor is registered.
  abbrev record_meta :
      GetTasksRequest → ExecutorMeta → Action (TaskServer E) TaskServerError (Unit {0})
  record_meta request meta = do
    write_executor_meta_database E (λ executors. (tt, HashMap.insert meta.client_id meta executors))
    register_keys E request.authorized_keys
    raise_as database_error (on_metas E.meta_database.save)

  record_meta-KeepsExecutors :
      (request : GetTasksRequest) (meta : ExecutorMeta) → KeepsExecutors (record_meta request meta)
  unfolding write_executor_meta_database
  record_meta-KeepsExecutors request meta =
      bind-KeepsExecutors
        (write_executor_meta_database E
          (λ executors. (tt, HashMap.insert meta.client_id meta executors)))
        (λ _.
          register_keys E request.authorized_keys
          >> raise_as database_error (on_metas E.meta_database.save))
        (λ _. refl)
        (λ _.
          bind-KeepsExecutors (register_keys E request.authorized_keys)
            (λ _. raise_as database_error (on_metas E.meta_database.save))
            (register_keys-KeepsExecutors request.authorized_keys) (λ _ _. refl))

  -- Only the connection of this executor changes, and when the action succeeds it is the sender.
  abbrev pub Connects :
      {X A : Type 0}
      → String
      → E.channels.Sender
      → TaskServer E
      → Result A X × TaskServer E
      → Type 0
  Connects {A = A} id sender s (result, t) =
      ((j : String) → j ≢ id → HashMap.get j t.executors.inner ≡ HashMap.get j s.executors.inner)
      × ((a : A) → result ≡ ok a → HashMap.get id t.executors.inner ≡ some sender)

  insert_executor-Connects :
      (id : String) (sender : E.channels.Sender) (s : TaskServer E)
      → Connects id sender s (insert_executor E id sender s)
  unfolding insert_executor
  insert_executor-Connects id sender s = (
    λ j other. ground (arith, other, eq_iff id j, HashMap.get-insert j id sender s.executors.inner),
    λ _ done. ground (arith, done, eq_iff id id, HashMap.get-insert id id sender s.executors.inner),
  )

  then-Connects :
      {X A B : Type 0} (id : String) (sender : E.channels.Sender) (s : TaskServer E)
      (m : Action (TaskServer E) X A) (f : A → Action (TaskServer E) X B)
      → Connects id sender s (m s)
      → ((a : A) → KeepsExecutors (f a))
      → Connects id sender s ((m >>= f) s)
  then-Connects id sender s m f (others, there) kf = elim (Result-cases (m s).0) [
    | inl (a, done) ↦
        let same = ap (λ l. l.inner) (kf a (m s).1) in
        rw (bind_of_ok m f s a done) (
          λ j other. ap (λ l. HashMap.get j l) same ∙ others j other,
          λ _ _. ap (λ l. HashMap.get id l) same ∙ there a done,
        )
    | inr (e, failed) ↦ rw (bind_of_err m f s e failed) (others, λ a done. ground (arith, done))
  ]

  register_meta-Connects :
      (request : GetTasksRequest) (sender : E.channels.Sender) (meta : ExecutorMeta)
      (s : TaskServer E)
      → Connects meta.client_id sender s (register_meta E request sender meta s)
  unfolding register_meta
  register_meta-Connects request sender meta s =
      then-Connects meta.client_id sender s (insert_executor E meta.client_id sender)
        (λ _. record_meta request meta) (insert_executor-Connects meta.client_id sender s)
        (λ _. record_meta-KeepsExecutors request meta)

  meta_of_request-client_id :
      (request : GetTasksRequest) (meta : ExecutorMeta)
      → meta_of_request request ≡ some meta
      → meta.client_id ≡ request.client_id
  unfolding meta_of_request
  meta_of_request-client_id request meta h = ground (arith, h)

  pub register_executor-Connects :
      (request : GetTasksRequest) (sender : E.channels.Sender) (s : TaskServer E)
      → Connects request.client_id sender s (register_executor E request sender s)
  unfolding register_executor
  register_executor-Connects request sender s = elim (Option-cases (meta_of_request request)) [
    | inl unknown ↦
        rw (register_executor, unknown) (λ j other. refl, λ a done. ground (arith, done))
    | inr (meta, known) ↦
        rw (register_executor, known, ← meta_of_request-client_id request meta known)
          (register_meta-Connects request sender meta s)
  ]
