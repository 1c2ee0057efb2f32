-- ===== src/Commander/Results.antt =====
-- `do_handle_cmd` of commander/src/cmd.rs: what is made of the responses to a task. What is printed is
-- left out.
use mathlib.Core.Bool.{not}
use funtonic.Base.{
  ℕ, suc, String, Bool, true, false, ◌||◌, ◌&&◌, Option, none, some, List, [], ◌∷◌, ◌++◌, Result,
  ok, err, ◌>>=◌, nat_eq, if◌then◌else◌,
}
use funtonic.Base.HashMap
use funtonic.Base.HashMap.{HashMap}
use funtonic.TaskServer.Protocol.{
  TaskResponse, matching_executors, task_execution_result, ExecutionResult, task_completed,
  task_output, ping, task_submitted, task_aborted, task_rejected, Output, stdout, stderr,
}

-- `ExecutorState` of commander/src/lib.rs
pub data ExecutorState : Type 0 where
  matching submitted alive disconnected error success : ExecutorState

abbrev rank : ExecutorState → ℕ
rank matching = 0
rank submitted = 1
rank alive = 2
rank disconnected = 3
rank error = 4
rank success = 5

-- `==`
abbrev pub same_state : ExecutorState → ExecutorState → Bool
same_state s t = nat_eq (rank s) (rank t)

abbrev pub is_success : ExecutorState → Bool
is_success s = same_state s success

-- `panic` stands for a panic of the thread.
pub data CommandError : Type 0 where
  status : String → CommandError
  panic : CommandError

pub record CommandOptions : Type 0 where
  pub raw : Bool
  pub group : Bool
  pub no_progress : Bool
  pub no_std_process_return : Bool

-- The maps that are filled in, and the position of the progress bar, if there is one.
pub record Progress : Type 0 where
  pub executors : HashMap ExecutorState
  pub executors_output : HashMap (List String)
  pub pb : Option ℕ

abbrev pub at_start : Progress
at_start = record { executors = []; executors_output = []; pb = none }

-- `*executors.entry(client_id).or_insert(Matching) = state`
unfoldable pub set_state : String → ExecutorState → Progress → Progress
unfolding HashMap.insert
set_state client_id state p = record p { executors = HashMap.insert client_id state p.executors }

unfoldable pub inc : Progress → Progress
inc p = elim (p.pb) [ none ↦ p | some n ↦ record p { pb = some (suc n) } ]

-- The ids are sorted for the print; the map does not depend on their order.
unfoldable pub set_matching : List String → HashMap ExecutorState → HashMap ExecutorState
unfolding HashMap.insert
set_matching [] executors = executors
set_matching (client_id ∷ client_ids) executors =
    set_matching client_ids (HashMap.insert client_id matching executors)

abbrev line_of : (String → String) → Output → String
line_of stderr_line (stdout o) = o
line_of stderr_line (stderr e) = stderr_line e

abbrev lines_of : Option (List String) → List String
lines_of none = []
lines_of (some lines) = lines

-- `stderr_line` is `format!("{}", e.trim_end().red())`.
unfoldable pub push_output :
    (String → String) → String → Output → HashMap (List String) → HashMap (List String)
unfolding HashMap.get HashMap.insert
push_output stderr_line client_id output outputs =
    HashMap.insert client_id
      (lines_of (HashMap.get client_id outputs) ++ line_of stderr_line output ∷ []) outputs

module _ (options : CommandOptions) (stdout_is_tty : Bool) (stderr_line : String → String) where
  unfoldable pub on_result : String → ExecutionResult → Progress → Progress
  unfolding set_state inc push_output HashMap.remove
  on_result client_id (task_rejected reason) p = inc (set_state client_id error p)
  on_result client_id task_aborted p =
      let q = inc (set_state client_id error p) in
      if options.group && not options.raw
      then record q { executors_output = HashMap.remove client_id q.executors_output }
      else q
  on_result client_id (task_completed return_code) p =
      let q = set_state client_id (if nat_eq return_code 0 then success else error) p in
      if options.raw then q else inc q
  on_result client_id (task_output none) p = p
  on_result client_id (task_output (some output)) p =
      if options.raw
      then p
      else if options.group
      then record p {
        executors_output = push_output stderr_line client_id output p.executors_output;
      }
      else p
  on_result client_id ping p = set_state client_id alive p
  on_result client_id ExecutionResult.disconnected p = set_state client_id disconnected p
  on_result client_id task_submitted p = set_state client_id submitted p

  -- `none` is the panic on a report without a result.
  unfoldable pub on_response : TaskResponse → Progress → Option Progress
  unfolding set_matching on_result
  on_response (matching_executors client_ids) p =
      if options.raw
      then some p
      else some (record {
        executors = set_matching client_ids p.executors;
        executors_output = p.executors_output;
        pb = if options.no_progress || not stdout_is_tty then p.pb else some 0;
      })
  on_response (task_execution_result r) p = elim (r.execution_result) [
    | none ↦ none
    | some result ↦ some (on_result r.client_id result p)
  ]

  -- The loop over the messages of the stream.
  unfoldable pub collect :
      List (Result (Option TaskResponse) String) → Progress → Result Progress CommandError
  unfolding on_response
  collect [] p = ok p
  collect (err e ∷ messages) p = err (status e)
  collect (ok none ∷ messages) p = err panic
  collect (ok (some response) ∷ messages) p = elim (on_response response p) [
    | none ↦ err panic
    | some q ↦ collect messages q
  ]

-- Every executor has succeeded.
unfoldable pub all_success : HashMap ExecutorState → Bool
all_success [] = true
all_success ((client_id, state) ∷ executors) = is_success state && all_success executors

-- `success` at the end: no executor at all is a failure.
unfoldable pub success_of : HashMap ExecutorState → Bool
unfolding all_success
success_of [] = false
success_of (executor ∷ executors) = all_success (executor ∷ executors)

-- `states`: the clients in each state.
unfoldable pub in_state : ExecutorState → HashMap ExecutorState → List String
in_state state [] = []
in_state state ((client_id, st) ∷ executors) =
    let rest = in_state state executors in if same_state state st then client_id ∷ rest else rest

-- `CommanderSyntheticOutput::Executor`, or the exit of the process.
pub data CommandEnd : Type 0 where
  exit : ℕ → CommandEnd
  synthetic : (ExecutorState → List String) → HashMap (List String) → CommandEnd

unfoldable pub finish : CommandOptions → Progress → CommandEnd
unfolding success_of in_state
finish options p =
    if options.no_std_process_return
    then synthetic (λ state. in_state state p.executors) p.executors_output
    else exit (if success_of p.executors then 0 else 1)

-- `do_handle_cmd` from the messages of the stream on.
unfoldable pub do_handle_cmd :
    CommandOptions
    → Bool
    → (String → String)
    → List (Result (Option TaskResponse) String)
    → Result CommandEnd CommandError
unfolding collect finish
do_handle_cmd options stdout_is_tty stderr_line messages =
    collect options stdout_is_tty stderr_line messages at_start >>= λ p. ok (finish options p)
