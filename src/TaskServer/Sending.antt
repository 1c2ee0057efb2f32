-- ===== src/TaskServer/Sending.antt =====
-- What the loop of `launch_task` sends, over channels that keep their laws.
use mathlib.Core.List.{Mem, append_assoc, append-nil}
use funtonic.Base.Action.{bind_of_ok}
use mathlib.Core.List.{Forall₂}
use funtonic.Base.{
  ℕ, String, ◌≡◌, ◌⊎◌, inl, inr, ◌∙◌, refl, ap, sym, true, false, Option, none, some, List, [], ◌∷◌,
  ◌++◌, ok, Bool-cases,
}
use funtonic.Crypto.SignedPayload.{SignedPayload}
use funtonic.TaskServer.Env.{Env, IsChannels}
use funtonic.TaskServer.Protocol.{
  TaskResponse, task_execution_result, ExecutionResult, disconnected, task_submitted,
}
use funtonic.TaskServer.State.{TaskServer}
use funtonic.TaskServer.CommanderService.{respond, report_state, outcome, send_one, send_all}

module _ (E : Env) (now : ℕ) (laws : IsChannels E.channels) where
  open laws use {
    tasks, responses, has_receiver, send_response_ok, send_task_ok, send_task_err, tasks-send_task,
    tasks-send_response, has_receiver-send_response, has_receiver-send_task, responses-send_task,
  }

  -- What was sent stays, and the receivers are the same.
  pub record Grows (v w : E.channels.World) : Type 0 where
    pub same_receivers : (e : E.channels.Sender) → has_receiver w e ≡ has_receiver v e
    pub kept :
        (e : E.channels.Sender) (q : SignedPayload × E.channels.Sender)
        → Mem q (tasks v e)
        → Mem q (tasks w e)

  Grows-refl : (w : E.channels.World) → Grows w w
  Grows-refl w = record { same_receivers = λ e. refl; kept = λ e q m. m }

  Grows-trans : (u v w : E.channels.World) → Grows u v → Grows v w → Grows u w
  Grows-trans u v w g h = record {
    same_receivers = λ e. h.same_receivers e ∙ g.same_receivers e;
    kept = λ e q m. h.kept e q (g.kept e q m);
  }

  pub Grows-send_response :
      (c : E.channels.Sender) (r : TaskResponse) (w : E.channels.World)
      → Grows w (E.channels.send_response c r w).1
  Grows-send_response c r w = record {
    same_receivers = λ e. has_receiver-send_response c e r w;
    kept = λ e q m. rw (tasks-send_response c e r w) m;
  }

  Grows-send_task :
      (c : E.channels.Sender) (p : SignedPayload × E.channels.Sender) (w : E.channels.World)
      → Grows w (E.channels.send_task c p w).1
  Grows-send_task c p w = record {
    same_receivers = λ e. has_receiver-send_task c e p w;
    kept = λ e q m. tasks-send_task c e p q w m;
  }

  -- A report about one executor.
  abbrev pub report_of : String → String → ExecutionResult → TaskResponse
  report_of task_id client_id result =
      task_execution_result
        (record { task_id = task_id; client_id = client_id; execution_result = some result })

  -- The report is true of the world: submitted tasks are in the executor's channel, and an executor
  -- that is reported as disconnected has no sender or has dropped its receiver.
  abbrev pub Reported :
      SignedPayload
      → E.channels.Sender
      → E.channels.World
      → String × Option E.channels.Sender
      → TaskResponse
      → Type 0
  Reported p c w (client_id, none) r =
      (n : ℕ) × (r ≡ report_of (E.random_task_id n) client_id disconnected)
  Reported p c w (client_id, some e) r =
      (n : ℕ) × (((r ≡ report_of (E.random_task_id n) client_id task_submitted)
          × (has_receiver w e ≡ true)
          × Mem (p, c) (tasks w e))
        ⊎ ((r ≡ report_of (E.random_task_id n) client_id disconnected)
            × (has_receiver w e ≡ false)))

  Reported-Grows :
      (p : SignedPayload) (c : E.channels.Sender) (v w : E.channels.World)
      (x : String × Option E.channels.Sender) (r : TaskResponse)
      → Grows v w
      → Reported p c v x r
      → Reported p c w x r
  Reported-Grows p c v w (client_id, none) r g h = h
  Reported-Grows p c v w (client_id, some e) r g (n, inl (h, live, m)) =
      (n, inl (h, g.same_receivers e ∙ live, g.kept e (p, c) m))
  Reported-Grows p c v w (client_id, some e) r g (n, inr (h, gone)) =
      (n, inr (h, g.same_receivers e ∙ gone))

  report_state_ok :
      (c : E.channels.Sender) (client_id : String) (result : ExecutionResult) (s : TaskServer E)
      → has_receiver s.world c ≡ true
      → let t = (report_state E now c client_id result s).1 in
        ((report_state E now c client_id result s).0 ≡ ok tt)
        × (responses t.world c
            ≡ responses s.world c ++ report_of (E.random_task_id s.draws) client_id result ∷ [])
        × Grows s.world t.world
  unfolding report_state respond
  report_state_ok c client_id result s live =
      let r = report_of (E.random_task_id s.draws) client_id result in
      let (sent, there) = send_response_ok c r s.world live in
      (rw sent refl, there, Grows-send_response c r s.world)

  -- One executor's round: one response, true of the world after it.
  abbrev Round :
      SignedPayload → E.channels.Sender → TaskServer E → String × Option E.channels.Sender → Type 0
  Round p c s x =
      let (result, t) = send_one E now p c x.0 x.1 s in
      (r : TaskResponse) × (result ≡ ok tt)
      × (responses t.world c ≡ responses s.world c ++ r ∷ [])
      × Reported p c t.world x r
      × Grows s.world t.world

  send_one_sent :
      (p : SignedPayload) (c e : E.channels.Sender) (client_id : String) (s : TaskServer E)
      → has_receiver s.world c ≡ true
      → Round p c s (client_id, some e)
  unfolding send_one outcome
  send_one_sent p c e client_id s live =
      let (sent, w) = E.channels.send_task e (p, c) s.world in
      let task = Grows-send_task e (p, c) s.world in
      let (done, there, report) =
        report_state_ok c client_id (outcome E now sent) (record s { world = w })
          (task.same_receivers c ∙ live) in
      let t = (send_one E now p c client_id (some e) s).1 in
      let grows = Grows-trans s.world w t.world task report in
      (
        report_of (E.random_task_id s.draws) client_id (outcome E now sent),
        done,
        there
            ∙ ap
                (λ rs.
                  rs ++ report_of (E.random_task_id s.draws) client_id (outcome E now sent) ∷ [])
                (responses-send_task e c (p, c) s.world),
        elim (Bool-cases (has_receiver s.world e)) [
          | inl here ↦
              let (taken, m) = send_task_ok e (p, c) s.world here in
              (s.draws, inl (rw taken refl, grows.same_receivers e ∙ here, report.kept e (p, c) m))
          | inr gone ↦ (
            s.draws,
            inr (rw (send_task_err e (p, c) s.world gone) refl, grows.same_receivers e ∙ gone),
          )
        ],
        grows,
      )

  send_one_ok :
      (p : SignedPayload) (c : E.channels.Sender) (x : String × Option E.channels.Sender)
      (s : TaskServer E)
      → has_receiver s.world c ≡ true
      → Round p c s x
  unfolding send_one
  send_one_ok p c (client_id, none) s live =
      let (done, there, grows) = report_state_ok c client_id disconnected s live in
      (
        report_of (E.random_task_id s.draws) client_id disconnected,
        done,
        there,
        (s.draws, refl),
        grows,
      )
  send_one_ok p c (client_id, some e) s live = send_one_sent p c e client_id s live

  -- The loop: one response for each executor, in their order, all true of the world at the end.
  abbrev pub Rounds :
      SignedPayload
      → E.channels.Sender
      → TaskServer E
      → List (String × Option E.channels.Sender)
      → Type 0
  Rounds p c s xs =
      let (result, t) = send_all E now p c xs s in
      (rs : List TaskResponse) × (result ≡ ok tt)
      × (responses t.world c ≡ responses s.world c ++ rs)
      × Forall₂ (Reported p c t.world) xs rs
      × Grows s.world t.world

  pub send_all_ok :
      (p : SignedPayload) (c : E.channels.Sender) (xs : List (String × Option E.channels.Sender))
      (s : TaskServer E)
      → has_receiver s.world c ≡ true
      → Rounds p c s xs
  unfolding send_all
  send_all_ok p c [] s live =
      ([], refl, sym (append-nil (responses s.world c)), Forall₂.nil, Grows-refl s.world)
  send_all_ok p c (x ∷ xs) s live =
      let (r, done, there, told, grows) = send_one_ok p c x s live in
      let t = (send_one E now p c x.0 x.1 s).1 in
      let (rs, done', there', told', grows') =
        send_all_ok p c xs t (grows.same_receivers c ∙ live) in
      let u = (send_all E now p c xs t).1 in
      let next = bind_of_ok (send_one E now p c x.0 x.1) (λ _. send_all E now p c xs) s tt done in
      (
        r ∷ rs,
        ap (λ z. z.0) next ∙ done',
        ap (λ z. responses z.1.world c) next
            ∙ there'
            ∙ ap (λ l. l ++ rs) there
            ∙ append_assoc (responses s.world c) (r ∷ []) rs,
        rw next (Forall₂.cons (Reported-Grows p c t.world u.world x r grows' told) told'),
        rw next (Grows-trans s.world t.world u.world grows grows'),
      )
