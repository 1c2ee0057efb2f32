-- ===== src/Exec/Tests.antt =====
-- Runs of a command, and the theorems at concrete inputs.
use funtonic.Base.{
  ℕ, ◌≡◌, refl, ◌⊎◌, Bool, true, false, Option, none, some, List, [], ◌∷◌, ◌++◌, ok, err, arith,
}
use funtonic.Exec.{out, error, ExecEvent, started, line_emitted}
use funtonic.Exec.Process.{
  Stream, Turn, read, wait, ask_kill, exit, spawn_tasks, run_turns, exec_command, no_std_err,
}
use funtonic.Exec.Events.{texts_of, codes, unread}
use funtonic.Exec.Faithful.{Exited, run_turns-Exited}
use funtonic.Exec.Progress.{rounds, rounds-Exited}

abbrev printed : Stream
printed = ok "foo" ∷ ok "bar" ∷ []

abbrev complained : Stream
complained = ok "oops" ∷ err "invalid utf-8" ∷ ok "lost" ∷ []

-- A line may be reported before the start is.
line_first :
    (run_turns (read out ∷ wait false ∷ []) (spawn_tasks printed [])).events
    ≡ line_emitted (record { line_type = out; line = "foo" }) ∷ started ∷ []
unfolding run_turns spawn_tasks
line_first = refl

no_handle : exec_command (ok (record { stdout = some []; stderr = none })) ≡ err no_std_err
unfolding exec_command
no_handle = refl

abbrev schedule : List Turn
schedule =
    wait false
    ∷ read out
    ∷ read error
    ∷ read out
    ∷ exit (ok (some 3))
    ∷ read out
    ∷ read error
    ∷ wait false
    ∷ ask_kill
    ∷ wait false
    ∷ read out
    ∷ []

run_turns-Exited_example :
    let s = run_turns schedule (spawn_tasks printed complained) in
    (texts_of out s.events ++ unread s.stdout ≡ "foo" ∷ "bar" ∷ [])
    × (texts_of error s.events ++ unread s.stderr ≡ "oops" ∷ [])
    × ((codes s.events ≡ [])
        ⊎ ((c : Option ℕ) × (before : List ExecEvent) × Exited printed complained s c before))
run_turns-Exited_example = run_turns-Exited printed complained schedule

abbrev preferences : List Bool
preferences = true ∷ false ∷ true ∷ true ∷ false ∷ false ∷ true ∷ []

rounds-Exited_example :
    (before : List ExecEvent) × Exited printed complained
      (run_turns (rounds (some 3) preferences) (spawn_tasks printed complained))
      (some 3)
      before
rounds-Exited_example =
    rounds-Exited printed complained (some 3) preferences (omega arith) (omega arith)
