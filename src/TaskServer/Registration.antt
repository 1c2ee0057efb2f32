-- ===== src/TaskServer/Registration.antt =====
-- Which executors `get_tasks` registers.
use funtonic.Base.{
  ℕ, ◌+◌, ◌*◌, ◌≤◌, ◌≡◌, ◌∙◌, ap, sym, true, some, ok, arith, eq_iff, map_err_ok, map_err, String,
  Result, err, ◌⊎◌, inl, inr, refl, ◌≢◌, Result-cases,
}
use funtonic.Base.Action.{Action, pure, lift, reads, ◌>>=◌, ◌>>◌, check-continue, bind_of_ok}
use funtonic.Crypto.Library.{Bytes}
use funtonic.Crypto.SignedPayload.{SignedPayload, payload_bytes_to_sign, nanos}
use funtonic.Crypto.KeyStore.{Keys}
use funtonic.Crypto.KeyStore.Backends.{IsKeyStore}
use funtonic.Crypto.KeyStore.Decode.{decode_payload-eq-ok_iff}
use funtonic.TaskServer.Env.{Env}
use funtonic.TaskServer.Protocol.{
  RegisterExecutorRequest, GetTasksRequest, Status, key_store_status, task_server_status,
}
use funtonic.TaskServer.State.{TaskServer, raise_as}
use funtonic.TaskServer.Registry.{register_executor}
use funtonic.TaskServer.Registering.{register_executor-Connects}
use funtonic.TaskServer.Keys.{files, handle_executor_key}
use funtonic.TaskServer.ExecutorService.{
  required, required_ok, check_version, new_channel, get_tasks,
}
use funtonic.Base.HashMap
use funtonic.Crypto.KeyStore.Store

check_version_ok :
    (E : Env) (now : ℕ) (request : GetTasksRequest)
    → check_version E now request ≡ ok tt
    → request.client_protocol_version ≡ E.protocol_version
unfolding check_version
check_version_ok E now request h =
    ground (arith, eq_iff request.client_protocol_version E.protocol_version)

module _ (E : Env) (keys : E.key_database.State → Keys)
    (store : IsKeyStore E.ring (files E) keys) where
  open store use {verify_ok}

  -- A request that has not expired, that a key trusted before the call has signed, and that names the
  -- server's protocol version.
  abbrev pub Vouched : ℕ → RegisterExecutorRequest → GetTasksRequest → TaskServer E → Type 0
  Vouched now r request s =
      (signed : SignedPayload) × (k : Bytes) × (r.get_tasks_request ≡ some signed)
      × (now ≤ E.unix_epoch + signed.valid_until_secs * nanos)
      × (HashMap.get signed.key_id (keys s.trusted_executor_keystore) ≡ some k)
      × (E.ring.verify k (payload_bytes_to_sign signed) signed.signature ≡ true)
      × (E.tasks_message.decode signed.payload ≡ ok request)
      × (request.client_protocol_version ≡ E.protocol_version)

  abbrev decoding : ℕ → SignedPayload → Action (TaskServer E) Status GetTasksRequest
  decoding now signed = raise_as key_store_status (
      reads (λ s.
        Store.decode_payload (files E) E.tasks_message E.unix_epoch now signed
          s.trusted_executor_keystore))

  -- What `get_tasks` does after the checks, and after the key of the executor is handled.
  abbrev accept : ℕ → GetTasksRequest → Action (TaskServer E) Status E.channels.Sender
  accept now request = do
    sender ← new_channel E now
    raise_as task_server_status (register_executor E request sender)
    pure sender

  abbrev after_key : ℕ → RegisterExecutorRequest → Action (TaskServer E) Status E.channels.Sender
  after_key now r = do
    signed ← lift (required "Missing getTasksRequest" r.get_tasks_request)
    request ← decoding now signed
    lift (check_version E now request)
    accept now request

  vouched :
      (now : ℕ) (r : RegisterExecutorRequest) (s t : TaskServer E) (signed : SignedPayload)
      (request : GetTasksRequest)
      → t.trusted_executor_keystore ≡ s.trusted_executor_keystore
      → r.get_tasks_request ≡ some signed
      → (decoding now signed t).0 ≡ ok request
      → check_version E now request ≡ ok tt
      → Vouched now r request s
  vouched now r s t signed request same given h2 h3 =
      let decoded = map_err_ok key_store_status _ request h2 in
      let (_, fresh, verified, read) =
        (decode_payload-eq-ok_iff (files E) E.tasks_message E.unix_epoch now signed
            t.trusted_executor_keystore request).0
          decoded in
      let (k, found, valid) =
        verify_ok signed.key_id (payload_bytes_to_sign signed) signed.signature
          t.trusted_executor_keystore verified in
      (
        signed,
        k,
        given,
        fresh,
        ap (λ st. HashMap.get signed.key_id (keys st)) (sym same) ∙ found,
        valid,
        read,
        check_version_ok E now request h3,
      )

  -- Only the executor of this name may have got another connection, and with the answer it has the one
  -- that its tasks come from.
  abbrev pub Registers :
      String → TaskServer E → Result E.channels.Sender Status × TaskServer E → Type 0
  Registers id s (result, t) =
      ((j : String) → j ≢ id → HashMap.get j t.executors.inner ≡ HashMap.get j s.executors.inner)
      × ((c : E.channels.Sender) → result ≡ ok c → HashMap.get id t.executors.inner ≡ some c)

  accept-Registers :
      (now : ℕ) (request : GetTasksRequest) (s : TaskServer E)
      → Registers request.client_id s (accept now request s)
  unfolding new_channel
  accept-Registers now request s =
      let (c, t) = new_channel E now s in
      let sender = (E.channels.unbounded s.world).0 in
      let (others, there) = register_executor-Connects E request sender t in
      elim (Result-cases (register_executor E request sender t).0) [
        | inl (_, done) ↦ rw done (others, λ c given. ground (arith, given, there tt done))
        | inr (e, failed) ↦ rw failed (others, λ c given. ground (arith, given))
      ]

  -- Nothing but the keys that wait for approval has changed.
  abbrev pub Refused : TaskServer E → Result E.channels.Sender Status × TaskServer E → Type 0
  Refused s (result, t) =
      (e : Status) × (result ≡ err e)
      × (t ≡ record s { unapproved_executor_keystore = t.unapproved_executor_keystore })

  handled :
      (id : String) (k : Bytes) (s : TaskServer E)
      → let t = (handle_executor_key E id k s).1 in
        t ≡ record s { unapproved_executor_keystore = t.unapproved_executor_keystore }
  unfolding handle_executor_key
  handled id k s = ground arith

  checked :
      (now : ℕ) (r : RegisterExecutorRequest) (s t : TaskServer E)
      → t.trusted_executor_keystore ≡ s.trusted_executor_keystore
      → ((request : GetTasksRequest) × Vouched now r request s
          × (after_key now r t ≡ accept now request t))
        ⊎ ((e : Status) × (after_key now r t ≡ (err e, t)))
  checked now r s t same =
      let Passed : Type 0 =
        (request : GetTasksRequest) × Vouched now r request s
        × (after_key now r t ≡ accept now request t) in
      let taken = required "Missing getTasksRequest" r.get_tasks_request in
      let accepted : GetTasksRequest → Action (TaskServer E) Status E.channels.Sender =
        λ request. lift (check_version E now request) >> accept now request in
      let read : SignedPayload → Action (TaskServer E) Status E.channels.Sender =
        λ signed. decoding now signed >>= accepted in
      check-continue Passed taken read t (λ signed given.
        check-continue Passed (decoding now signed t).0 accepted t (λ request decoded.
          check-continue Passed (check_version E now request) (λ _. accept now request) t
            (λ _ version. inl (
              request,
              vouched now r s t signed request same (required_ok _ r.get_tasks_request signed given)
                  decoded version,
              bind_of_ok (lift taken) read t signed given
                  ∙ (bind_of_ok (decoding now signed) accepted t request decoded
                      ∙ bind_of_ok (lift (check_version E now request)) (λ _. accept now request) t
                          tt version),
            ))))

  -- Either the request of the executor has not expired, is signed by a key that was trusted before the
  -- call and names the server's protocol version, and of the connections only the one of the executor
  -- that it names may have changed, which on success is the one that its tasks come from; or the call
  -- is answered with an error and no executor is registered: no part of the server has changed but the
  -- keys that wait for approval.
  pub get_tasks_ok :
      (now : ℕ) (r : RegisterExecutorRequest) (s : TaskServer E)
      → ((request : GetTasksRequest) × Vouched now r request s
          × Registers request.client_id s (get_tasks E now r s))
        ⊎ Refused s (get_tasks E now r s)
  unfolding get_tasks
  get_tasks_ok now r s =
      let handling = handle_executor_key E r.client_id r.public_key in
      let t = (handling s).1 in
      let kept = handled r.client_id r.public_key s in
      elim (check-continue
        ((request : GetTasksRequest) × Vouched now r request s
          × Registers request.client_id s (get_tasks E now r s))
        (map_err key_store_status (handling s).0) (λ _. after_key now r) t
        (λ _ known. elim (checked now r s t (ap (λ u. u.trusted_executor_keystore) kept)) [
          | inl (request, passed, run) ↦
              let (others, there) = accept-Registers now request t in
              let same = ap (λ u. u.executors.inner) kept in
              inl (
                request,
                passed,
                rw
                    (bind_of_ok (raise_as key_store_status handling) (λ _. after_key now r) s tt
                        known
                      ∙ run)
                    (λ j other. others j other ∙ ap (λ l. HashMap.get j l) same, there),
              )
          | inr refused ↦ inr refused
        ])) [ inl passed ↦ inl passed | inr (e, refused) ↦ inr (rw refused (e, refl, kept)) ]
