-- ===== src/TaskServer/Dropping.antt =====
-- What `DropExecutor` removes.
use funtonic.Base.{
  ℕ, String, ◌≡◌, ◌∙◌, refl, ap, Bool, ◌==◌, Option, none, List, [], ◌∷◌, ok, map_err_ok, arith,
  any, if◌then◌else◌,
}
use funtonic.Base.Action.{lift, reads, bind_ok, bind_of_ok}
use funtonic.Base.HashMap
use funtonic.Base.HashMap.{HashMap}
use funtonic.Query.{Query}
use funtonic.Crypto.Library.{IsDatabase}
use funtonic.TaskServer.Env.{parse_text, Env, AdminDroppedExecutorJsonResponse, AdminAnswer}
use funtonic.TaskServer.Protocol.{invalid_argument, text, database_error, task_server_status}
use funtonic.TaskServer.State.{TaskServer, raise_as}
use funtonic.TaskServer.Registry.{
  Metas, matching, read_executor_meta_database, write_executor_meta_database,
}
use funtonic.TaskServer.CommanderService.{parse_query}
use funtonic.TaskServer.CommanderService.Admin.{take_meta, disconnect, drop_all, drop_matching}

-- The value at a key, unless the key is among those listed.
abbrev pub unlisted : {A : Type 0} → List String → String → Option A → Option A
unlisted ids j o = if any ids (λ i. i == j) then none else o

unlisted_cons :
    {A : Type 0} (id : String) (ids : List String) (j : String) (o : Option A)
    → unlisted ids j (if id == j then none else o) ≡ unlisted (id ∷ ids) j o
unlisted_cons id ids j o = ground arith

unlisted_of_eq :
    {A : Type 0} (query : Query) (metas metas' : Metas)
    → metas ≡ metas'
    → (j : String) (o : Option A)
    → unlisted (HashMap.keys (matching query metas)) j o
      ≡ unlisted (HashMap.keys (matching query metas')) j o
unlisted_of_eq query metas metas' same j o =
    ap (λ m. unlisted (HashMap.keys (matching query m)) j o) same

module _ (E : Env) (now : ℕ) (database : IsDatabase E.meta_database) where
  open database use {contents, read_ok, write_ok}

  disconnect_ok :
      (id j : String) (s : TaskServer E) (b : Bool)
      → (disconnect E now id s).0 ≡ ok b
      → let t = (disconnect E now id s).1 in
        (HashMap.get j t.executors.inner
          ≡ (if id == j then none else HashMap.get j s.executors.inner))
        × (t.executor_meta_database ≡ s.executor_meta_database)
  unfolding disconnect
  disconnect_ok id j s b h = ground (arith, HashMap.get-remove j id s.executors.inner)

  write_ok_metas :
      (id j : String) (s : TaskServer E) (b : Bool)
      → (write_executor_meta_database E (take_meta id) s).0 ≡ ok b
      → let t = (write_executor_meta_database E (take_meta id) s).1 in
        (HashMap.get j (contents t.executor_meta_database)
          ≡ (if id == j then none else HashMap.get j (contents s.executor_meta_database)))
        × (t.executors ≡ s.executors)
  unfolding write_executor_meta_database take_meta
  write_ok_metas id j s b h =
      let (_, now_without) =
        write_ok (take_meta id) s.executor_meta_database b (map_err_ok database_error _ b h) in
      (
        ap (HashMap.get j) now_without
            ∙ HashMap.get-remove j id (contents s.executor_meta_database),
        refl,
      )

  drop_all_ok :
      (ids : List String) (acc : HashMap AdminDroppedExecutorJsonResponse) (j : String)
      (s : TaskServer E) (result : HashMap AdminDroppedExecutorJsonResponse)
      → (drop_all E now ids acc s).0 ≡ ok result
      → let t = (drop_all E now ids acc s).1 in
        (HashMap.get j t.executors.inner ≡ unlisted ids j (HashMap.get j s.executors.inner))
        × (HashMap.get j (contents t.executor_meta_database)
            ≡ unlisted ids j (HashMap.get j (contents s.executor_meta_database)))
  unfolding drop_all
  drop_all_ok [] acc j s result h = (refl, refl)
  drop_all_ok (id ∷ ids) acc j s result h =
      let write = raise_as task_server_status (write_executor_meta_database E (take_meta id)) in
      let (known, h0, g0) = bind_ok write _ s result h in
      let t = (write s).1 in
      let (removed, h1, g1) = bind_ok (disconnect E now id) _ t result g0 in
      let u = (disconnect E now id t).1 in
      let told : AdminDroppedExecutorJsonResponse = record {
        removed_from_connected = removed;
        removed_from_known = known;
      } in
      let (senders, metas) = drop_all_ok ids (HashMap.insert id told acc) j u result g1 in
      let (gone, same_executors) =
        write_ok_metas id j s known (map_err_ok task_server_status _ known h0) in
      let (left, same_metas) = disconnect_ok id j t removed h1 in
      let run = bind_of_ok write _ s known h0 ∙ bind_of_ok (disconnect E now id) _ t removed h1 in
      (
        ap (λ z. HashMap.get j z.1.executors.inner) run
            ∙ senders
            ∙ ap (unlisted ids j)
                (left ∙ ap (λ l. if id == j then none else HashMap.get j l.inner) same_executors)
            ∙ unlisted_cons id ids j (HashMap.get j s.executors.inner),
        ap (λ z. HashMap.get j (contents z.1.executor_meta_database)) run
            ∙ metas
            ∙ ap (unlisted ids j) (ap (λ d. HashMap.get j (contents d)) same_metas ∙ gone)
            ∙ unlisted_cons id ids j (HashMap.get j (contents s.executor_meta_database)),
      )

  -- Dropping by a query: the executors whose metadata match it are neither connected nor known
  -- afterwards, and the connection and the metadata of every other client are as they were.
  pub drop_matching_ok :
      (predicate : String) (s : TaskServer E) (answer : AdminAnswer)
      → (drop_matching E now predicate s).0 ≡ ok answer
      → let t = (drop_matching E now predicate s).1 in
        (query : Query) × (parse_text E predicate ≡ ok query)
        × ((j : String)
            → let ids = HashMap.keys (matching query (contents s.executor_meta_database)) in
              (HashMap.get j t.executors.inner ≡ unlisted ids j (HashMap.get j s.executors.inner))
              × (HashMap.get j (contents t.executor_meta_database)
                  ≡ unlisted ids j (HashMap.get j (contents s.executor_meta_database))))
  unfolding drop_matching parse_query read_executor_meta_database
  drop_matching_ok predicate s answer h =
      let parsing = lift (parse_query E now predicate) in
      let (query, h0, g0) = bind_ok parsing _ s answer h in
      let reading = raise_as task_server_status (reads (read_executor_meta_database E)) in
      let (metas, h1, g1) = bind_ok reading _ s answer g0 in
      let ids = HashMap.keys (matching query metas) in
      let (result, h2, g2) = bind_ok (drop_all E now ids []) _ s answer g1 in
      let run =
        bind_of_ok parsing _ s query h0
        ∙ bind_of_ok reading _ s metas h1
        ∙ bind_of_ok (drop_all E now ids []) _ s result h2 in
      let known =
        read_ok s.executor_meta_database metas
          (map_err_ok database_error _ metas (map_err_ok task_server_status _ metas h1)) in
      (
        query,
        map_err_ok (λ e. invalid_argument (text e)) _ query h0,
        λ j.
            let (senders, left) = drop_all_ok ids [] j s result h2 in
            (
              ap (λ z. HashMap.get j z.1.executors.inner) run
                  ∙ senders
                  ∙ unlisted_of_eq query metas (contents s.executor_meta_database) known j
                      (HashMap.get j s.executors.inner),
              ap (λ z. HashMap.get j (contents z.1.executor_meta_database)) run
                  ∙ left
                  ∙ unlisted_of_eq query metas (contents s.executor_meta_database) known j
                      (HashMap.get j (contents s.executor_meta_database)),
            ),
      )
