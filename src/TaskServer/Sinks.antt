-- ===== src/TaskServer/Sinks.antt =====
-- The way of a task's results: from its registration to the commander that launched it.
use mathlib.Core.List.{append_assoc, append-nil}
use mathlib.Core.List.{Forall₂}
use funtonic.Base.{
  ℕ, suc, ◌==◌, String, ◌≡◌, ◌∙◌, refl, ap, sym, true, false, none, some, List, [], ◌∷◌, ◌++◌,
  Result, ok, err, arith, eq_iff, if◌then◌else◌,
}
use funtonic.Base.Action.{continue, pure}
use funtonic.Base.HashMap
use funtonic.Crypto.SignedPayload.{SignedPayload}
use funtonic.Crypto.KeyStore.Store.{decode_payload}
use funtonic.TaskServer.Env.{Env, IsChannels}
use funtonic.TaskServer.Protocol.{
  TaskExecutionResult, TaskResponse, task_execution_result, Status, not_found, text,
}
use funtonic.TaskServer.State.{TaskServer}
use funtonic.TaskServer.Keys.{files}
use funtonic.TaskServer.Registry.{register_new_task, get_task_sink}
use funtonic.TaskServer.ExecutorService.{next_task, report, reports, task_execution}

module _ (E : Env) (now : ℕ) where
  -- The server without the sink of a task.
  abbrev pub without_sink : String → TaskServer E → TaskServer E
  without_sink task_id s = record s {
    tasks_sinks = record (s.tasks_sinks) { inner = HashMap.remove task_id s.tasks_sinks.inner };
  }

  -- The server with a sink for a new task.
  abbrev registered : E.channels.Sender → TaskServer E → TaskServer E
  registered c s = record s {
    draws = suc s.draws;
    tasks_sinks = record (s.tasks_sinks) {
      inner = HashMap.insert (E.random_task_id s.draws) c s.tasks_sinks.inner;
    };
  }

  if_same : {A : Type 0} (id : String) (a b : A) → (if id == id then a else b) ≡ a
  if_same id a b = ground (arith, eq_iff id id)

  next_task_registers :
      (p : SignedPayload) (c : E.channels.Sender) (s : TaskServer E)
      → s.tasks_sinks.poisoned ≡ false
      → next_task E now (p, c) s
        ≡ (ok (record { task_id = E.random_task_id s.draws; payload = some p }), registered c s)
  unfolding next_task register_new_task
  next_task_registers p c s unpoisoned = rw unpoisoned refl

  task_execution_known :
      (id : String) (c : E.channels.Sender) (ms : List (Result SignedPayload Status))
      (s : TaskServer E)
      → s.tasks_sinks.poisoned ≡ false
      → HashMap.get id s.tasks_sinks.inner ≡ some c
      → task_execution E now (some id) ms s ≡ reports E now c ms (without_sink id s)
  unfolding task_execution get_task_sink
  task_execution_known id c ms s unpoisoned found = rw (unpoisoned, found) refl

  task_execution_unknown :
      (id : String) (ms : List (Result SignedPayload Status)) (s : TaskServer E)
      → s.tasks_sinks.poisoned ≡ false
      → HashMap.get id s.tasks_sinks.inner ≡ none
      → task_execution E now (some id) ms s
        ≡ (err (not_found (text "task_id not found")), without_sink id s)
  unfolding task_execution get_task_sink
  task_execution_unknown id ms s unpoisoned found = rw (unpoisoned, found) refl

  -- Once a task has been handed out, the results that are sent under its id go to the commander that
  -- launched it. The sink is taken out with it, so that a second stream of results under the same id
  -- is refused.
  pub task_execution-next_task :
      (p : SignedPayload) (c : E.channels.Sender) (ms : List (Result SignedPayload Status))
      (s : TaskServer E)
      → s.tasks_sinks.poisoned ≡ false
      → let id = E.random_task_id s.draws in
        let (reply, t) = next_task E now (p, c) s in
        (reply ≡ ok (record { task_id = id; payload = some p }))
        × (task_execution E now (some id) ms t ≡ reports E now c ms (without_sink id t))
        × (task_execution E now (some id) ms (without_sink id t)
            ≡ (err (not_found (text "task_id not found")), without_sink id (without_sink id t)))
  task_execution-next_task p c ms s unpoisoned =
      let id = E.random_task_id s.draws in
      let t = registered c s in
      let held = HashMap.get-insert id id c s.tasks_sinks.inner ∙ if_same id (some c) _ in
      let gone = HashMap.get-remove id id t.tasks_sinks.inner ∙ if_same id none _ in
      rw (next_task_registers p c s unpoisoned) (
        refl,
        task_execution_known id c ms t unpoisoned held,
        task_execution_unknown id ms (without_sink id t) unpoisoned gone,
      )

  module _ (laws : IsChannels E.channels) where
    open laws use {responses, has_receiver, send_response_ok, has_receiver-send_response}

    -- A message that is signed by a trusted executor key and decodes to the result.
    abbrev pub Decodes :
        E.key_database.State → Result SignedPayload Status → TaskExecutionResult → Type 0
    Decodes trusted message result =
        (signed : SignedPayload) × (message ≡ ok signed)
        × (decode_payload (files E) E.result_message E.unix_epoch now signed trusted ≡ ok result)

    abbrev pub forwarded : List TaskExecutionResult → List TaskResponse
    forwarded [] = []
    forwarded (result ∷ results) = task_execution_result result ∷ forwarded results

    abbrev delivered : E.channels.Sender → TaskExecutionResult → TaskServer E → TaskServer E
    delivered c result s = record s {
      world = (E.channels.send_response c (task_execution_result result) s.world).1;
    }

    report_ok :
        (c : E.channels.Sender) (m : Result SignedPayload Status) (result : TaskExecutionResult)
        (s : TaskServer E)
        → has_receiver s.world c ≡ true
        → Decodes s.trusted_executor_keystore m result
        → report E now c m s ≡ (ok true, delivered c result s)
    unfolding report
    report_ok c m result s live (signed, arrived, decoded) =
        rw (arrived, decoded, (send_response_ok c (task_execution_result result) s.world live).0)
          refl

    forward :
        (trusted : E.key_database.State) (c : E.channels.Sender)
        (ms : List (Result SignedPayload Status)) (results : List TaskExecutionResult)
        → Forall₂ (Decodes trusted) ms results
        → (s : TaskServer E) → has_receiver s.world c ≡ true
        → s.trusted_executor_keystore ≡ trusted
        → ((reports E now c ms s).0 ≡ ok tt)
          × (responses (reports E now c ms s).1.world c ≡ responses s.world c ++ forwarded results)
    unfolding reports
    forward trusted c _ _ Forall₂.nil s live same = (refl, sym (append-nil (responses s.world c)))
    forward trusted c _ _ (Forall₂.cons {a = m} {b = result} {l₁ = ms} {l₂ = results} d h) s live
          same =
        let t = delivered c result s in
        let sent = send_response_ok c (task_execution_result result) s.world live in
        let (done, there) =
          forward trusted c ms results h t
            (has_receiver-send_response c c (task_execution_result result) s.world ∙ live) same in
        rw
          (ap (λ (r, t). continue r (λ b. if b then reports E now c ms else pure tt) t)
            (report_ok c m result s live (rw same d)))
          (
            done,
            there
                ∙ ap (λ l. l ++ forwarded results) sent.1
                ∙ append_assoc (responses s.world c) (task_execution_result result ∷ [])
                    (forwarded results),
          )

    -- Results that are signed by trusted executor keys are forwarded to a commander that listens, in
    -- their order.
    pub reports_ok :
        (c : E.channels.Sender) (ms : List (Result SignedPayload Status))
        (results : List TaskExecutionResult) (s : TaskServer E)
        → has_receiver s.world c ≡ true
        → Forall₂ (Decodes s.trusted_executor_keystore) ms results
        → ((reports E now c ms s).0 ≡ ok tt)
          × (responses (reports E now c ms s).1.world c ≡ responses s.world c ++ forwarded results)
    reports_ok c ms results s live h =
        forward s.trusted_executor_keystore c ms results h s live refl
