-- ===== src/TaskServer/Authority/Reach.antt =====
-- The states that the task server reaches by the requests of executors, commanders and administrators.
use funtonic.Base.{
  true, ◌+◌, ◌*◌, ◌≤◌, ℕ, String, ◌≡◌, ◌⊎◌, inl, inr, ◌∙◌, refl, ap, sym, Result, ok, some,
}
use funtonic.Crypto.SignedPayload.{SignedPayload, payload_bytes_to_sign, nanos}
use funtonic.TaskServer.Env.{Env}
use funtonic.TaskServer.Protocol.{
  RegisterExecutorRequest, LaunchTaskRequest, approve_executor_key, Status,
}
use funtonic.TaskServer.State.{TaskServer}
use funtonic.TaskServer.Registry.{memory, get_task_sink}
use funtonic.TaskServer.Authority.{
  get_tasks-KeepsKeys, next_task-KeepsKeys, get_task_sink-KeepsKeys, report-KeepsKeys,
  launch_task-KeepsKeys,
}
use funtonic.TaskServer.Authority.Admin.{admin-admin}
use funtonic.TaskServer.Authority.Trusted.{Trusts, Waits, Names, admin-Trusts}
use funtonic.Crypto.Library.{Bytes}
use funtonic.Crypto.KeyStore.{Keys}
use funtonic.Crypto.KeyStore.Backends.{IsKeyStore, memory_backend-IsKeyStore}
use funtonic.Crypto.KeyStore.Decode.{decode_payload-eq-ok_iff}
use funtonic.TaskServer.Keys.{files}
use mathlib.Core.Path.{subst}
use funtonic.TaskServer.ExecutorService
use funtonic.TaskServer.CommanderService
use funtonic.TaskServer.CommanderService.Admin
use funtonic.Base.HashMap

-- One request, at a time `now`. `task_execution` takes its messages as they arrive, so that taking
-- the sink out and each report are steps of their own.
pub data Step (E : Env) : TaskServer E → TaskServer E → Type 0 where
  get_tasks :
      (now : ℕ) (registration : RegisterExecutorRequest) (s : TaskServer E)
      → Step E s (ExecutorService.get_tasks E now registration s).1
  next_task :
      (now : ℕ) (task : SignedPayload × E.channels.Sender) (s : TaskServer E)
      → Step E s (ExecutorService.next_task E now task s).1
  take_sink : (task_id : String) (s : TaskServer E) → Step E s (get_task_sink E task_id s).1
  report :
      (now : ℕ) (sender : E.channels.Sender) (message : Result SignedPayload Status)
      (s : TaskServer E)
      → Step E s (ExecutorService.report E now sender message s).1
  launch_task :
      (now : ℕ) (request : LaunchTaskRequest) (s : TaskServer E)
      → Step E s (CommanderService.launch_task E now request s).1
  admin :
      (now : ℕ) (payload : SignedPayload) (s : TaskServer E)
      → Step E s (Admin.admin E now payload s).1

pub data Reach (E : Env) (s : TaskServer E) : TaskServer E → Type 0 where
  start : Reach E s s
  step : (t u : TaskServer E) → Reach E s t → Step E t u → Reach E s u

module _ (E : Env) where
  Step-admin : (s t : TaskServer E) → Step E s t → t.authorized_admin_keys ≡ s.authorized_admin_keys
  Step-admin _ _ (get_tasks now r s) = ((get_tasks-KeepsKeys E now r).at s).admin
  Step-admin _ _ (next_task now c s) = ((next_task-KeepsKeys E now c).at s).admin
  Step-admin _ _ (take_sink id s) = ((get_task_sink-KeepsKeys E 0 id).at s).admin
  Step-admin _ _ (report now c m s) = ((report-KeepsKeys E now c m).at s).admin
  Step-admin _ _ (launch_task now r s) = ((launch_task-KeepsKeys E now r).at s).admin
  Step-admin _ _ (admin now p s) = admin-admin E now p s

  -- No sequence of requests changes the admin keys that the server was started with.
  pub Reach-admin :
      (s t : TaskServer E) → Reach E s t → t.authorized_admin_keys ≡ s.authorized_admin_keys
  Reach-admin s _ start = refl
  Reach-admin s u (step t _ r x) = Step-admin t u x ∙ Reach-admin s t r

module _ (E : Env) (keys : E.key_database.State → Keys) (store : IsKeyStore E.ring (files E) keys)
    (client_id : String) (k : Bytes) where
  -- The request approves the executor, or all that wait, while the executor waits with this key. It has
  -- not expired when it is answered, and one of the given admin keys has signed it.
  abbrev Approves : Keys → (s t : TaskServer E) → Step E s t → Type 0
  Approves admins _ _ (admin now p s) =
      (id : String) × (b : Bytes) × Names E keys store client_id k id
      × Waits E keys store client_id k s
      × (now ≤ E.unix_epoch + p.valid_until_secs * nanos)
      × (HashMap.get p.key_id admins ≡ some b)
      × (E.ring.verify b (payload_bytes_to_sign p) p.signature ≡ true)
      × (E.admin_message.decode p.payload
          ≡ ok (record { request_type = some (approve_executor_key id) }))
  Approves admins _ _ (get_tasks now r s) = ⊥
  Approves admins _ _ (next_task now c s) = ⊥
  Approves admins _ _ (take_sink id s) = ⊥
  Approves admins _ _ (report now c m s) = ⊥
  Approves admins _ _ (launch_task now r s) = ⊥

  -- One of the requests of the run does.
  abbrev pub ApprovedIn : Keys → (s t : TaskServer E) → Reach E s t → Type 0
  ApprovedIn admins s _ start = ⊥
  ApprovedIn admins s u (step t _ r x) = ApprovedIn admins s t r ⊎ Approves admins t u x

  kept :
      (s t : TaskServer E)
      → t.trusted_executor_keystore ≡ s.trusted_executor_keystore
      → Trusts E keys store client_id k t
      → Trusts E keys store client_id k s
  kept s t same h = ap (λ st. HashMap.get client_id (keys st)) (sym same) ∙ h

  Step-trusted :
      (s t : TaskServer E) (x : Step E s t)
      → Trusts E keys store client_id k t
      → Trusts E keys store client_id k s ⊎ Approves s.authorized_admin_keys.inner s t x
  Step-trusted _ _ (get_tasks now r s) h = inl (
      kept s (ExecutorService.get_tasks E now r s).1 ((get_tasks-KeepsKeys E now r).at s).trusted h)
  Step-trusted _ _ (next_task now c s) h = inl (
      kept s (ExecutorService.next_task E now c s).1 ((next_task-KeepsKeys E now c).at s).trusted h)
  Step-trusted _ _ (take_sink id s) h =
      inl (kept s (get_task_sink E id s).1 ((get_task_sink-KeepsKeys E 0 id).at s).trusted h)
  Step-trusted _ _ (report now c m s) h =
      inl (
        kept s (ExecutorService.report E now c m s).1 ((report-KeepsKeys E now c m).at s).trusted h)
  Step-trusted _ _ (launch_task now r s) h = inl (
      kept s (CommanderService.launch_task E now r s).1
        ((launch_task-KeepsKeys E now r).at s).trusted h)
  Step-trusted _ _ (admin now p s) h = elim (admin-Trusts E keys store client_id k now p s h) [
    | inl before ↦ inl before
    | inr (id, approval, names, waits) ↦
        let (_, fresh, verified, read) =
          (decode_payload-eq-ok_iff (memory E) E.admin_message E.unix_epoch now p
              s.authorized_admin_keys _).0
            approval in
        let (b, found, valid) =
          (memory_backend-IsKeyStore E.ring).verify_ok p.key_id (payload_bytes_to_sign p)
            p.signature s.authorized_admin_keys verified in
        inr (id, b, names, waits, fresh, found, valid, read)
  ]

  -- After any sequence of requests, each key that is trusted for an executor was trusted for it at the
  -- start, or some request of the sequence approves it: one that names the executor or all that wait,
  -- while the executor waits with this key, that has not expired when it is answered, and that an
  -- admin key of the start has signed.
  pub Reach-trusted :
      (s t : TaskServer E) (r : Reach E s t)
      → Trusts E keys store client_id k t
      → Trusts E keys store client_id k s ⊎ ApprovedIn s.authorized_admin_keys.inner s t r
  Reach-trusted s _ start h = inl h
  Reach-trusted s u (step t _ r x) h = elim (Step-trusted t u x h) [
    | inl before ↦ elim (Reach-trusted s t r before) [
      | inl first ↦ inl first
      | inr approved ↦ inr (inl approved)
    ]
    | inr approves ↦ inr (inr (subst (λ a. Approves a.inner t u x) (Reach-admin E s t r) approves))
  ]
