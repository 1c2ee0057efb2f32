-- ===== src/Commander/Outcome.antt =====
-- What a command of the interactive mode of commander/src/cmd.rs comes to: `do_handle_cmd` on what
-- the client answers.
use funtonic.Base.{
  ◌⊎◌, inl, inr, refl, ℕ, String, ◌≡◌, Bool, true, Option, List, Result, ok, err, ◌>>=◌, map_err,
  arith,
}
use funtonic.TaskServer.Protocol.{LaunchTaskRequest, TaskResponse}
use funtonic.Commander.Results.{
  CommandOptions, CommandError, status, CommandEnd, exit, synthetic, do_handle_cmd, Progress,
  finish, collect, at_start,
}
use funtonic.Commander.Requests.{HandleError}

-- How a session ends: at an error before or in the sending of a command, or with the process.
pub data SessionEnd : Type 0 where
  refused : HandleError → SessionEnd
  command : CommandError → SessionEnd
  exited : ℕ → SessionEnd

unfoldable pub stays : CommandEnd → Result (Unit {0}) SessionEnd
stays (exit code) = err (exited code)
stays (synthetic states output) = ok tt

module _ (stdout_is_tty : Bool) (stderr_line : String → String)
    (launch_task : LaunchTaskRequest
      → Result (List (Result (Option TaskResponse) String)) String) where
  unfoldable pub outcome : LaunchTaskRequest → CommandOptions → Result (Unit {0}) SessionEnd
  unfolding do_handle_cmd stays
  outcome request options = do
    messages ← map_err (λ e. command (status e)) (launch_task request)
    end ← map_err command (do_handle_cmd options stdout_is_tty stderr_line messages)
    stays end

-- An end that leaves the process running, with an error.
abbrev pub IsFailure : SessionEnd → Type 0
IsFailure (refused e) = Unit
IsFailure (command e) = Unit
IsFailure (exited code) = ⊥

-- What is done succeeds, or ends the session with an error.
abbrev Stays : Result (Unit {0}) SessionEnd → Type 0
Stays r = (r ≡ ok tt) ⊎ ((e : SessionEnd) × (r ≡ err e) × IsFailure e)

finish-Stays :
    (options : CommandOptions) (collected : Result Progress CommandError)
    → options.no_std_process_return ≡ true
    → Stays (map_err command (collected >>= λ p. ok (finish options p)) >>= stays)
unfolding finish stays
finish-Stays options (ok p) h = inl (ground arith)
finish-Stays options (err d) h = inr (command d, refl, tt)

module _ (stdout_is_tty : Bool) (stderr_line : String → String) (options : CommandOptions)
    (stays_on : options.no_std_process_return ≡ true) where
  answer-Stays :
      (answer : Result (List (Result (Option TaskResponse) String)) String)
      → Stays (
          map_err (λ d. command (status d)) answer >>= λ messages.
          map_err command (do_handle_cmd options stdout_is_tty stderr_line messages) >>= stays)
  unfolding do_handle_cmd
  answer-Stays (ok messages) =
      finish-Stays options (collect options stdout_is_tty stderr_line messages at_start) stays_on
  answer-Stays (err d) = inr (command (status d), refl, tt)

  -- A command that does not let the process end can only fail.
  pub outcome-Stays :
      (launch_task : LaunchTaskRequest → Result (List (Result (Option TaskResponse) String)) String)
      (request : LaunchTaskRequest)
      → Stays (outcome stdout_is_tty stderr_line launch_task request options)
  unfolding outcome
  outcome-Stays launch_task request = answer-Stays (launch_task request)
