-- ===== src/Exec/Process.antt =====
-- exec/src/a_sync.rs: a command's output, read by two tasks, and the task that waits for its exit.
use funtonic.Base.{
  ℕ, String, Bool, true, false, ◌&&◌, Option, none, some, List, [], ◌∷◌, ◌++◌, Result, ok, err,
  ◌>>=◌, map_err, if◌then◌else◌,
}
use funtonic.Exec.{LineType, out, error, ExecEvent, started, finished, line_emitted}

-- A stream, by the results of `next_line` up to its end.
abbrev pub Stream : Type 0
Stream = List (Result String String)

-- `read_output_stream`: what it has yet to read, or that it has returned.
pub data Reader : Type 0 where
  reading : Stream → Reader
  ended : Reader

-- Where `wait_for_exit` stands: before it starts, at either `select!`, or where it has returned. The
-- panic is that of `expect`.
pub data Waiter : Type 0 where
  spawned joining waiting completed killed panicked : Waiter

-- The status of the process, once it has exited, or the error of `wait`.
abbrev pub ExitStatus : Type 0
ExitStatus = Result (Option ℕ) String

-- `kill` says whether the other end of `kill_recv` has sent or is dropped, `events` what was given to
-- the senders.
pub record Running : Type 0 where
  pub stdout : Reader
  pub stderr : Reader
  pub waiter : Waiter
  pub kill : Bool
  pub status : Option ExitStatus
  pub events : List ExecEvent

-- The handles of `Child`.
pub record Child : Type 0 where
  pub stdout : Option Stream
  pub stderr : Option Stream

pub data ExecError : Type 0 where
  not_spawned : String → ExecError
  no_std_out no_std_err : ExecError

abbrev ok_or : {A E : Type 0} → Option A → E → Result A E
ok_or none e = err e
ok_or (some a) e = ok a

-- The three tasks are spawned, none has run.
unfoldable pub spawn_tasks : Stream → Stream → Running
spawn_tasks stdout stderr = record {
  stdout = reading stdout;
  stderr = reading stderr;
  waiter = spawned;
  kill = false;
  status = none;
  events = [];
}

unfoldable pub exec_command : Result Child String → Result Running ExecError
unfolding spawn_tasks
exec_command child = do
  child ← map_err not_spawned child
  stdout ← ok_or child.stdout no_std_out
  stderr ← ok_or child.stderr no_std_err
  ok (spawn_tasks stdout stderr)

-- A round of the loop of `read_output_stream`, and what it sends.
unfoldable pub read_line : LineType → Reader → Reader × List ExecEvent
read_line stream_type (reading (ok line ∷ rest)) =
    (reading rest, line_emitted (record { line_type = stream_type; line = line }) ∷ [])
read_line stream_type (reading []) = (ended, [])
read_line stream_type (reading (err e ∷ rest)) = (ended, [])
read_line stream_type ended = (ended, [])

unfoldable pub has_ended : Reader → Bool
has_ended (reading _) = false
has_ended ended = true

-- `select!` of the streams and the signal to kill: where both are ready it takes either.
unfoldable pub select_joined : Bool → Bool → Bool → Waiter
select_joined true true prefers_kill = if prefers_kill then killed else waiting
select_joined true false prefers_kill = waiting
select_joined false true prefers_kill = killed
select_joined false false prefers_kill = joining

unfoldable pub exit_of : ExitStatus → Waiter × List ExecEvent
exit_of (ok code) = (completed, finished code ∷ [])
exit_of (err e) = (panicked, [])

-- `select!` of the process and the signal to kill.
unfoldable pub select_exit : Option ExitStatus → Bool → Bool → Waiter × List ExecEvent
unfolding exit_of
select_exit (some status) true prefers_kill = if prefers_kill then (killed, []) else exit_of status
select_exit (some status) false prefers_kill = exit_of status
select_exit none true prefers_kill = (killed, [])
select_exit none false prefers_kill = (waiting, [])

-- `wait_for_exit`, from where it stands up to where it waits again.
unfoldable pub wait_for_exit :
    Waiter → Bool → Bool → Option ExitStatus → Bool → Waiter × List ExecEvent
unfolding select_joined select_exit
wait_for_exit spawned joined kill status prefers_kill = (joining, started ∷ [])
wait_for_exit joining joined kill status prefers_kill = (select_joined joined kill prefers_kill, [])
wait_for_exit waiting joined kill status prefers_kill = select_exit status kill prefers_kill
wait_for_exit returned joined kill status prefers_kill = (returned, [])

-- What happens next: a task runs, the caller asks to kill, or the process exits.
pub data Turn : Type 0 where
  read : LineType → Turn
  wait : Bool → Turn
  ask_kill : Turn
  exit : ExitStatus → Turn

unfoldable pub exited : Option ExitStatus → ExitStatus → ExitStatus
exited none new = new
exited (some old) new = old

unfoldable pub step : Turn → Running → Running
unfolding read_line has_ended wait_for_exit exited
step (read out) s =
    let (reader, sent) = read_line out s.stdout in
    record s { stdout = reader; events = s.events ++ sent }
step (read error) s =
    let (reader, sent) = read_line error s.stderr in
    record s { stderr = reader; events = s.events ++ sent }
step (wait prefers_kill) s =
    let joined = has_ended s.stdout && has_ended s.stderr in
    let (waiter, sent) = wait_for_exit s.waiter joined s.kill s.status prefers_kill in
    record s { waiter = waiter; events = s.events ++ sent }
step ask_kill s = record s { kill = true }
step (exit status) s = record s { status = some (exited s.status status) }

unfoldable pub run_turns : List Turn → Running → Running
unfolding step
run_turns [] s = s
run_turns (turn ∷ turns) s = run_turns turns (step turn s)
