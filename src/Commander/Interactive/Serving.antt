-- ===== src/Commander/Interactive/Serving.antt =====
-- What the interactive mode of commander/src/cmd.rs sends, and how it ends.
use funtonic.Base.{String, true, List, ◌∷◌, Result, Option, Bool}
use funtonic.TaskServer.Protocol.{LaunchTaskRequest, TaskResponse}
use funtonic.TaskServer.Env.{Env}
use funtonic.Commander.Results.{CommandOptions}
use funtonic.Commander.Requests.{Session}
use funtonic.Commander.Interactive.{Moment, Input, quiet}
use funtonic.Commander.Interactive.Wanted.{Wanted, let_through}

module _ (E : Env) (session : Session) (stdout_is_tty : Bool) (stderr_line : String → String)
    (launch_task : LaunchTaskRequest
      → Result (List (Result (Option TaskResponse) String)) String) where
  abbrev quietly : CommandOptions → CommandOptions
  quietly options = record options { no_std_process_return = true }

  -- The lines of a session: the empty one that lists the executors, and those let through.
  abbrev pub lines_of : CommandOptions → Moment → List Input → List Wanted
  lines_of options first inputs =
      ("", first, quiet)
      ∷ let_through E session stdout_is_tty stderr_line launch_task (quietly options) inputs
