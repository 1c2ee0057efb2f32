-- ===== src/TaskServer/State.antt =====
-- `TaskServer` of common/src/task_server.rs, with the world that its methods act on.
use funtonic.Base
use funtonic.Base.{ℕ, String, [], Result, ok, err, Lock, Option}
use funtonic.Base.Action.{Action}
use funtonic.Base.HashMap.{HashMap}
use funtonic.Crypto.KeyStore.Memory.{MemoryKeyStore}
use funtonic.TaskServer.Env.{Env}

-- The `Arc`s share one state between all handlers, so that it is passed along. `world` holds the
-- channels and `draws` counts the random ids drawn.
pub record TaskServer (E : Env) : Type 0 where
  pub executors : Lock (HashMap E.channels.Sender)
  pub tasks_sinks : Lock (HashMap E.channels.Sender)
  pub executor_meta_database : E.meta_database.State
  pub authorized_keys : MemoryKeyStore
  pub authorized_admin_keys : MemoryKeyStore
  pub trusted_executor_keystore : E.key_database.State
  pub unapproved_executor_keystore : E.key_database.State
  pub world : E.channels.World
  pub draws : ℕ

-- Methods of one field, as methods of the server.
module _ {E : Env} {X A : Type 0} where
  abbrev pub on_trusted : Action E.key_database.State X A → Action (TaskServer E) X A
  on_trusted m s =
      let (r, t) = m s.trusted_executor_keystore in (r, record s { trusted_executor_keystore = t })

  abbrev pub on_unapproved : Action E.key_database.State X A → Action (TaskServer E) X A
  on_unapproved m s =
      let (r, t) = m s.unapproved_executor_keystore in
      (r, record s { unapproved_executor_keystore = t })

  abbrev pub on_authorized : Action MemoryKeyStore X A → Action (TaskServer E) X A
  on_authorized m s = let (r, t) = m s.authorized_keys in (r, record s { authorized_keys = t })

  abbrev pub on_metas : Action E.meta_database.State X A → Action (TaskServer E) X A
  on_metas m s =
      let (r, t) = m s.executor_meta_database in (r, record s { executor_meta_database = t })

  abbrev pub on_world : Action E.channels.World X A → Action (TaskServer E) X A
  on_world m s = let (r, w) = m s.world in (r, record s { world = w })

module _ {S X Y A : Type 0} where
  -- `?` with a conversion of the error.
  abbrev pub raise_as : (X → Y) → Action S X A → Action S Y A
  raise_as f m s = let (r, s') = m s in (Base.map_err f r, s')
