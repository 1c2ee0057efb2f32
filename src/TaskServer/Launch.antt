-- ===== src/TaskServer/Launch.antt =====
-- `launch_task` as a whole: what it accepts, what it answers and what it sends.
use mathlib.Core.List.{Forall₂}
use funtonic.Base.{
  ℕ, String, ◌≡◌, ◌∙◌, refl, ap, true, false, Option, List, [], ◌∷◌, ◌++◌, Result, ok, err, map_err,
  some, ◌⊎◌, inl, inr, Result-cases,
}
use funtonic.Base.Action.{Action, pure, ◌>>◌, lift, reads, ◌>>=◌, bind_of_ok, bind_of_err}
use funtonic.Query.{Query}
use funtonic.Crypto.SignedPayload.{SignedPayload}
use funtonic.Crypto.KeyStore.Store.{decode_payload}
use funtonic.TaskServer.Env.{parse_text, Env, IsChannels}
use funtonic.TaskServer.Protocol.{
  LaunchTaskRequest, Task, TaskResponse, matching_executors, Status, internal, invalid_argument,
  text, task_server_status,
}
use funtonic.TaskServer.State.{TaskServer, raise_as}
use funtonic.TaskServer.Registry.{
  Metas, memory, matching, with_senders, get_channels_to_matching_executors,
}
use funtonic.TaskServer.ExecutorService.{new_channel}
use funtonic.TaskServer.CommanderService.{
  client_ids, respond, send_all, admit, parse_query, launch_task,
}
use funtonic.TaskServer.Sending.{Reported, Grows-send_response, send_all_ok}
use funtonic.TaskServer.Admission.{MayBeSent, admit-state, admit_ok}
use funtonic.Base.HashMap

client_ids-with_senders :
    {A : Type 0} (senders : HashMap.HashMap A) (ids : List String)
    → client_ids (with_senders senders ids) ≡ ids
unfolding client_ids with_senders
client_ids-with_senders senders [] = refl
client_ids-with_senders senders (id ∷ ids) = ap (λ l. id ∷ l) (client_ids-with_senders senders ids)

module _ (E : Env) (now : ℕ) where
  -- A request that does not pass the checks is answered with the error of the check and changes
  -- nothing: no channel is made and nothing is sent.
  pub launch_task_rejected :
      (r : LaunchTaskRequest) (s : TaskServer E) (e : Status)
      → (admit E now r s).0 ≡ err e
      → launch_task E now r s ≡ (err e, s)
  unfolding launch_task
  launch_task_rejected r s e h =
      bind_of_err (admit E now r) _ s e h ∙ ap (λ t. (err e, t)) (admit-state E now r s)

  -- Either the payload of the request decodes, under a key that may launch tasks, to a task that may
  -- be sent (no streaming payload, and under an admin key as well if it changes the keys of
  -- executors), or the request is answered with an error and changes nothing: no channel is made and
  -- nothing is sent.
  pub launch_task_admitted :
      (r : LaunchTaskRequest) (s : TaskServer E)
      → ((signed : SignedPayload) × (task : Task) × (r.payload ≡ some signed)
          × (decode_payload (memory E) E.launch_message E.unix_epoch now signed s.authorized_keys
              ≡ ok (record { task = some task }))
          × MayBeSent E now task signed s)
        ⊎ ((e : Status) × (launch_task E now r s ≡ (err e, s)))
  launch_task_admitted r s = elim (Result-cases (admit E now r s).0) [
    | inr (e, refused) ↦ inr (e, launch_task_rejected r s e refused)
    | inl (signed, admitted) ↦
        let (task, given, decoded, may_be_sent) = admit_ok E now r s signed admitted in
        inl (signed, task, given, decoded, may_be_sent)
  ]

  module _ (laws : IsChannels E.channels) where
    open laws use {
      responses, responses-unbounded, has_receiver, has_receiver-unbounded, send_response_ok,
    }

    -- The parts of `launch_task` after the checks, and after the search for executors.
    abbrev announce :
        SignedPayload
        → E.channels.Sender
        → List (String × Option E.channels.Sender)
        → Action (TaskServer E) Status E.channels.Sender
    announce signed sender senders = do
      respond E now sender (matching_executors (client_ids senders))
      send_all E now signed sender senders
      pure sender

    abbrev dispatch : SignedPayload → String → Action (TaskServer E) Status E.channels.Sender
    dispatch signed predicate = do
      sender ← new_channel E now
      query ← lift (parse_query E now predicate)
      senders ← raise_as task_server_status (reads (get_channels_to_matching_executors E query))
      announce signed sender senders

    -- What `announce` promises, for senders and the ids that they belong to.
    abbrev Announced :
        SignedPayload
        → E.channels.Sender
        → List (String × Option E.channels.Sender)
        → Result E.channels.Sender Status × TaskServer E
        → Type 0
    Announced signed c senders (result, t) =
        (reports : List TaskResponse) × (result ≡ ok c)
        × (responses t.world c ≡ matching_executors (client_ids senders) ∷ reports)
        × Forall₂ (Reported E now laws signed c t.world) senders reports

    announce_ok :
        (signed : SignedPayload) (c : E.channels.Sender)
        (senders : List (String × Option E.channels.Sender)) (s : TaskServer E)
        → responses s.world c ≡ []
        → has_receiver s.world c ≡ true
        → Announced signed c senders (announce signed c senders s)
    unfolding respond
    announce_ok signed c senders s empty live =
        let first = matching_executors (client_ids senders) in
        let (sent, there) = send_response_ok c first s.world live in
        let t = (respond E now c first s).1 in
        let g = Grows-send_response E now laws c first s.world in
        let (reports, done, there', told, _) =
          send_all_ok E now laws signed c senders t (g.same_receivers c ∙ live) in
        let next =
          bind_of_ok (respond E now c first) (λ _. send_all E now signed c senders >> pure c) s tt
            (ap (map_err (λ _. internal (text "Unexpected Error"))) sent) in
        let last = bind_of_ok (send_all E now signed c senders) (λ _. pure c) t tt done in
        rw (next ∙ last) (
          reports,
          refl,
          there' ∙ ap (λ l. l ++ reports) (there ∙ ap (λ l. l ++ first ∷ []) empty),
          told,
        )

    get_channels_ok :
        (s : TaskServer E) (query : Query) (metas : Metas)
        → E.meta_database.read s.executor_meta_database ≡ ok metas
        → s.executors.poisoned ≡ false
        → get_channels_to_matching_executors E query s
          ≡ ok (with_senders s.executors.inner (HashMap.keys (matching query metas)))
    unfolding get_channels_to_matching_executors
    get_channels_ok s query metas known unpoisoned = rw (known, unpoisoned) refl

    dispatch_ok :
        (signed : SignedPayload) (predicate : String) (s : TaskServer E) (query : Query)
        (metas : Metas)
        → parse_text E predicate ≡ ok query
        → E.meta_database.read s.executor_meta_database ≡ ok metas
        → s.executors.poisoned ≡ false
        → (c : E.channels.Sender) × Announced signed c
            (with_senders s.executors.inner (HashMap.keys (matching query metas)))
            (dispatch signed predicate s)
    unfolding new_channel parse_query
    dispatch_ok signed predicate s query metas parsed known unpoisoned =
        let (c, w) = E.channels.unbounded s.world in
        let t = record s { world = w } in
        let senders = with_senders s.executors.inner (HashMap.keys (matching query metas)) in
        let next =
          bind_of_ok (lift (parse_query E now predicate))
            (λ query.
              raise_as task_server_status (reads (get_channels_to_matching_executors E query))
              >>= announce signed c)
            t query (ap (map_err (λ e. invalid_argument (text e))) parsed) in
        let last =
          bind_of_ok
            (raise_as task_server_status (reads (get_channels_to_matching_executors E query)))
            (announce signed c) t senders
            (ap (map_err task_server_status) (get_channels_ok t query metas known unpoisoned)) in
        (
          c,
          rw (next ∙ last) (
              announce_ok signed c senders t (responses-unbounded s.world)
                (has_receiver-unbounded s.world)),
        )

    -- A request that passes the checks, with a query that parses, is answered: the channel that is
    -- returned holds the ids of the executors whose metadata match the query, and then one report for
    -- each of them in this order. A report of a submitted task is about an executor that is connected
    -- and has the payload in its channel, together with the commander's; any other says that the
    -- executor is disconnected, and is about one without a sender or with its receiver gone.
    pub launch_task_ok :
        (r : LaunchTaskRequest) (s : TaskServer E) (signed : SignedPayload) (query : Query)
        (metas : Metas)
        → (admit E now r s).0 ≡ ok signed
        → parse_text E r.predicate ≡ ok query
        → E.meta_database.read s.executor_meta_database ≡ ok metas
        → s.executors.poisoned ≡ false
        → let (result, t) = launch_task E now r s in
          let ids = HashMap.keys (matching query metas) in
          (c : E.channels.Sender) × (reports : List TaskResponse) × (result ≡ ok c)
          × (responses t.world c ≡ matching_executors ids ∷ reports)
          × Forall₂
              (Reported E now laws signed c t.world)
              (with_senders s.executors.inner ids)
              reports
    unfolding launch_task
    launch_task_ok r s signed query metas admitted parsed known unpoisoned =
        let (c, announced) = dispatch_ok signed r.predicate s query metas parsed known unpoisoned in
        let (reports, done, there, told) = announced in
        let ids = HashMap.keys (matching query metas) in
        let start =
          bind_of_ok (admit E now r) (λ signed. dispatch signed r.predicate) s signed admitted
          ∙ ap (dispatch signed r.predicate) (admit-state E now r s) in
        (
          c,
          reports,
          ap (λ z. z.0) start ∙ done,
          ap (λ z. responses z.1.world c) start
              ∙ there
              ∙ ap (λ l. matching_executors l ∷ reports)
                  (client_ids-with_senders s.executors.inner ids),
          rw start told,
        )
