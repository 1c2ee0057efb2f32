-- ===== src/TaskServer/Admission.antt =====
-- Which requests pass the checks of `launch_task`.
use funtonic.Base.{ℕ, ◌≡◌, ◌∙◌, refl, ap, some, ok, map_err_ok, ok-injective}
use funtonic.Base.Action.{Action, lift, reads, bind_ok, bind-state}
use funtonic.Crypto.SignedPayload.{SignedPayload}
use funtonic.Crypto.KeyStore.Store.{decode_payload}
use funtonic.TaskServer.Env.{Env}
use funtonic.TaskServer.Protocol.{
  LaunchTaskRequest, LaunchTaskRequestPayload, Task, execute_command, streaming_payload,
  authorize_key, revoke_key, Status, key_store_status,
}
use funtonic.TaskServer.State.{TaskServer, raise_as}
use funtonic.TaskServer.Registry.{memory}
use funtonic.TaskServer.ExecutorService.{required, required_ok}
use funtonic.TaskServer.CommanderService.{
  admin_key_status, check_admin_key, check_implemented, admit,
}

module _ (E : Env) (now : ℕ) where
  -- What it takes to have a task sent, beyond a key that may launch tasks.
  abbrev pub MayBeSent : Task → SignedPayload → TaskServer E → Type 0
  MayBeSent (execute_command c) signed s = Unit
  MayBeSent (streaming_payload b) signed s = ⊥
  MayBeSent (authorize_key k) signed s =
      decode_payload (memory E) E.unit_message E.unix_epoch now signed s.authorized_admin_keys
      ≡ ok tt
  MayBeSent (revoke_key k) signed s =
      decode_payload (memory E) E.unit_message E.unix_epoch now signed s.authorized_admin_keys
      ≡ ok tt

  check_admin_key-state :
      (task : Task) (signed : SignedPayload) (s : TaskServer E)
      → (check_admin_key E now task signed s).1 ≡ s
  unfolding check_admin_key
  check_admin_key-state (execute_command c) signed s = refl
  check_admin_key-state (streaming_payload b) signed s = refl
  check_admin_key-state (authorize_key k) signed s = refl
  check_admin_key-state (revoke_key k) signed s = refl

  check_admin_key_ok :
      (task : Task) (signed : SignedPayload) (s : TaskServer E)
      → (check_admin_key E now task signed s).0 ≡ ok tt
      → check_implemented E now task ≡ ok tt
      → MayBeSent task signed s
  unfolding check_admin_key check_implemented
  check_admin_key_ok (execute_command c) signed s h k = tt
  check_admin_key_ok (streaming_payload b) signed s h k = cc
  check_admin_key_ok (authorize_key b) signed s h k = map_err_ok admin_key_status _ tt h
  check_admin_key_ok (revoke_key b) signed s h k = map_err_ok admin_key_status _ tt h

  abbrev decoding : SignedPayload → Action (TaskServer E) Status LaunchTaskRequestPayload
  decoding signed = raise_as key_store_status (
      reads
        (λ s. decode_payload (memory E) E.launch_message E.unix_epoch now signed s.authorized_keys))

  pub admit-state : (r : LaunchTaskRequest) (s : TaskServer E) → (admit E now r s).1 ≡ s
  unfolding admit
  admit-state r s =
      bind-state (lift (required "Missing signed payload" r.payload)) _ (λ s. refl)
        (λ signed.
          bind-state (decoding signed) _ (λ s. refl)
            (λ p.
              bind-state (lift (required "Missing task" p.task)) _ (λ s. refl)
                (λ task.
                  bind-state (check_admin_key E now task signed) _
                    (check_admin_key-state task signed)
                    (λ _.
                      bind-state (lift (check_implemented E now task)) _ (λ s. refl)
                        (λ _ s. refl)))))
        s

  -- A request passes the checks only if its payload decodes to a task under a key that may launch
  -- tasks; a task that changes the keys of executors must decode under an admin key as well, and a
  -- streaming payload never passes.
  pub admit_ok :
      (r : LaunchTaskRequest) (s : TaskServer E) (signed : SignedPayload)
      → (admit E now r s).0 ≡ ok signed
      → (task : Task) × (r.payload ≡ some signed)
        × (decode_payload (memory E) E.launch_message E.unix_epoch now signed s.authorized_keys
            ≡ ok (record { task = some task }))
        × MayBeSent task signed s
  unfolding admit
  admit_ok r s signed h =
      let (p, h0, g0) = bind_ok (lift (required "Missing signed payload" r.payload)) _ s signed h in
      let (payload, h1, g1) = bind_ok (decoding p) _ s signed g0 in
      let (task, h2, g2) = bind_ok (lift (required "Missing task" payload.task)) _ s signed g1 in
      let (_, h3, g3) = bind_ok (check_admin_key E now task p) _ s signed g2 in
      let (_, h4, g4) =
        bind_ok (lift (check_implemented E now task)) _ (check_admin_key E now task p s).1 signed
          g3 in
      rw (← ok-injective p signed g4) (
        task,
        required_ok "Missing signed payload" r.payload p h0,
        map_err_ok key_store_status _ payload h1
            ∙ ap (λ t. ok (record { task = t })) (required_ok "Missing task" payload.task task h2),
        check_admin_key_ok task p s h3 h4,
      )
