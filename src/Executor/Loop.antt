-- ===== src/Executor/Loop.antt =====
-- The executor's loop: whatever messages arrive, what it does was asked for by a signed one.
use mathlib.Core.List.{mem-cons_self, mem-cons_of_mem, append_assoc, append-nil}
use mathlib.Core.List.{Forall₂}
use funtonic.Crypto.KeyStore.Store.{decode_payload}
use funtonic.Base.{
  String, ◌≡◌, ◌⊎◌, inl, inr, ◌∙◌, ap, sym, refl, Option, none, some, List, [], ◌∷◌, ◌++◌, Result,
  ok, err, ok-injective, All-append, All-map, arith, Result-cases,
}
use funtonic.Base.Action.{Action, pure, bind_of_ok, bind_of_err}
use funtonic.Base.HashMap.{HashMap}
use funtonic.Crypto.SignedPayload.{SignedPayload, Ed25519Key}
use funtonic.Crypto.KeyStore.Memory.{MemoryKeyStore, memory_backend}
use funtonic.TaskServer.Protocol.{GetTaskStreamReply, execute_command}
use funtonic.Executor.Connection.{ConfigurationModification, unchanged}
use funtonic.Executor.Dispatch.{
  Client, RunError, Executor, spawn, run_task, run_payload, react, run,
}
use funtonic.Executor.Orders.{Ordered, Obeys, Caused, react-started, react_modifies}

module _ (C : Client) (authorized_keys : HashMap String) (key_store : MemoryKeyStore)
    (client_id : String) (signing_key : Ed25519Key) where
  abbrev Messages : Type 0
  Messages = List (Result GetTaskStreamReply String)

  abbrev Obeyed : Messages → List (String × String) → List (String × String) → Type 0
  Obeyed = Obeys C authorized_keys key_store client_id signing_key

  abbrev OrderedBy : Messages → String × String → Type 0
  OrderedBy = Ordered C authorized_keys key_store client_id signing_key

  nothing_new : (ms : Messages) (l : List (String × String)) → Obeyed ms l l
  nothing_new ms l = ([], sym (append-nil l), tt)

  Obeyed-trans :
      (ms : Messages) (a b c : List (String × String))
      → Obeyed ms a b
      → Obeyed ms b c
      → Obeyed ms a c
  Obeyed-trans ms a b c (new, e, p) (more, f, q) = (
    new ++ more,
    f ∙ ap (λ l. l ++ more) e ∙ append_assoc a new more,
    All-append (OrderedBy ms) new more p q,
  )

  later :
      (m : Result GetTaskStreamReply String) (ms : Messages) (a b : List (String × String))
      → Obeyed ms a b
      → Obeyed (m ∷ ms) a b
  later m ms a b (new, e, p) = (
    new,
    e,
    All-map (OrderedBy ms) (OrderedBy (m ∷ ms))
        (λ x (reply, here, id, signed). (reply, mem-cons_of_mem m here, id, signed)) new p,
  )

  first :
      (reply : GetTaskStreamReply) (ms : Messages) (s : Executor C)
      → Obeyed
          (ok reply ∷ ms)
          s.started
          (react C authorized_keys key_store client_id signing_key reply s).1.started
  first reply ms s =
      elim (react-started C authorized_keys key_store client_id signing_key reply s) [
        | inl same ↦ rw same (nothing_new (ok reply ∷ ms) s.started)
        | inr (command, signed, more) ↦
            ((reply.task_id, command) ∷ [], more, ((reply, mem-cons_self, refl, signed), tt))
      ]

  -- What the loop did, and how it ended.
  abbrev Accounted :
      Messages
      → List (String × String)
      → Result ConfigurationModification RunError × Executor C
      → Type 0
  Accounted ms started (r, t) =
      Obeyed ms started t.started
      × ((m : ConfigurationModification)
          → r ≡ ok m
          → (m ≡ unchanged) ⊎ Caused C authorized_keys key_store client_id signing_key ms m)

  -- How the loop goes on after a message.
  abbrev follow :
      Messages
      → Option ConfigurationModification
      → Action (Executor C) RunError ConfigurationModification
  follow ms change = elim change [
    | none ↦ run C authorized_keys key_store client_id signing_key ms
    | some modification ↦ pure modification
  ]

  -- Whatever arrives, each command that the executor starts was brought by a message under the same
  -- task id, signed by one of the keys that it authorizes; and it only leaves the loop to change its
  -- authorized keys when a message so signed asks for this change, where a key to revoke is one that
  -- it has.
  pub run-Accounted :
      (ms : Messages) (s : Executor C)
      → Accounted ms s.started (run C authorized_keys key_store client_id signing_key ms s)
  unfolding run
  run-Accounted [] s = (nothing_new [] s.started, λ m h. inl (sym (ok-injective unchanged m h)))
  run-Accounted (err e ∷ ms) s = (nothing_new (err e ∷ ms) s.started, λ m h. absurd (ground arith))
  run-Accounted (ok reply ∷ ms) s =
      let reacting = react C authorized_keys key_store client_id signing_key reply in
      let u = (reacting s).1 in
      let (rest, ending) = run-Accounted ms u in
      elim (Result-cases (reacting s).0) [
        | inl (none, done) ↦ rw (bind_of_ok reacting (follow ms) s none done) (
          Obeyed-trans (ok reply ∷ ms) s.started u.started _ (first reply ms s)
              (later (ok reply) ms u.started _ rest),
          λ m h. elim (ending m h) [
            | inl same ↦ inl same
            | inr (r, task, here, signed, asked) ↦
                inr (r, task, mem-cons_of_mem (ok reply) here, signed, asked)
          ],
        )
        | inl (some change, done) ↦ rw (bind_of_ok reacting (follow ms) s (some change) done) (
          first reply ms s,
          λ m h.
              let (task, signed, asked) =
                react_modifies C authorized_keys key_store client_id signing_key reply s m
                  (done ∙ ap (λ c. ok (some c)) (ok-injective change m h)) in
              inr (reply, task, mem-cons_self, signed, asked),
        )
        | inr (e, failed) ↦
            rw (bind_of_err reacting (follow ms) s e failed)
              (first reply ms s, λ m h. absurd (ground arith))
      ]

  -- A message that brings a command, signed by an authorized key and not expired.
  abbrev pub Brings : C.Net → Result GetTaskStreamReply String → String × String → Type 0
  Brings net message (task_id, command) =
      (reply : GetTaskStreamReply) × (payload : SignedPayload) × (message ≡ ok reply)
      × (reply.task_id ≡ task_id)
      × (reply.payload ≡ some payload)
      × (decode_payload (memory_backend C.ring) C.launch_message C.unix_epoch (C.clock net) payload
            key_store
          ≡ ok (record { task = some (execute_command command) }))

  react_brings :
      (reply : GetTaskStreamReply) (payload : SignedPayload) (command : String) (s : Executor C)
      → reply.payload ≡ some payload
      → decode_payload
          (memory_backend C.ring)
          C.launch_message
          C.unix_epoch
          (C.clock s.net)
          payload
          key_store
        ≡ ok (record { task = some (execute_command command) })
      → react C authorized_keys key_store client_id signing_key reply s
        ≡ (ok none, record s { started = s.started ++ (reply.task_id, command) ∷ [] })
  unfolding react run_payload run_task spawn
  react_brings reply payload command s given decoded = rw (given, decoded) refl

  runs :
      (net : C.Net) (ms : Messages) (commands : List (String × String))
      → Forall₂ (Brings net) ms commands
      → (s : Executor C) → s.net ≡ net
      → run C authorized_keys key_store client_id signing_key ms s
        ≡ (ok unchanged, record s { started = s.started ++ commands })
  unfolding run
  runs net _ _ Forall₂.nil s same =
      ap (λ l. (ok unchanged, record s { started = l })) (sym (append-nil s.started))
  runs net _ _
        (Forall₂.cons {a = m} {b = (task_id, command)} {l₁ = ms} {l₂ = commands}
          (reply, payload, arrived, named, given, decoded)
          h)
        s same =
      let t = record s { started = s.started ++ (reply.task_id, command) ∷ [] } in
      let reacted = react_brings reply payload command s given (rw same decoded) in
      rw (arrived, reacted)
        (runs net ms commands h t same
          ∙ ap (λ l. (ok unchanged, record s { started = l }))
              (append_assoc s.started ((reply.task_id, command) ∷ []) commands
                ∙ ap (λ id. s.started ++ (id, command) ∷ commands) named))

  -- Commands that arrive signed by authorized keys are all started, in their order, and the loop goes
  -- on to the end of the stream.
  pub run_commands :
      (ms : Messages) (commands : List (String × String)) (s : Executor C)
      → Forall₂ (Brings s.net) ms commands
      → run C authorized_keys key_store client_id signing_key ms s
        ≡ (ok unchanged, record s { started = s.started ++ commands })
  run_commands ms commands s h = runs s.net ms commands h s refl
