-- ===== src/Commander/Verdict.antt =====
-- How the results add up: each executor's state, and the exit code.
use mathlib.Core.Bool.{not}
use funtonic.Base.{
  String, ◌≡◌, ◌↔◌, ◌∙◌, ap, sym, refl, Bool, true, false, ◌&&◌, ◌==◌, eq_iff, Option, none, some,
  List, [], ◌∷◌, Result, ok, err, ok-injective, any, nat_eq, arith, if◌then◌else◌, Bool-cases,
  Option-cases, inl, inr,
}
use funtonic.Base.HashMap
use funtonic.Base.HashMap.{HashMap, NodupKeys}
use funtonic.TaskServer.Protocol.{
  TaskResponse, matching_executors, task_execution_result, ExecutionResult, task_completed,
  task_output, ping, task_submitted, task_aborted, task_rejected,
}
use funtonic.Commander.Results.{
  ExecutorState, matching, submitted, alive, disconnected, error, success, CommandOptions, Progress,
  at_start, set_state, inc, set_matching, on_result, on_response, collect, all_success, success_of,
  exit, finish, do_handle_cmd,
}

-- One executor's state after a result of its own.
abbrev pub state_after : ExecutionResult → Option ExecutorState → Option ExecutorState
state_after (task_rejected reason) o = some error
state_after task_aborted o = some error
state_after (task_completed code) o = some (if nat_eq code 0 then success else error)
state_after (task_output output) o = o
state_after ping o = some alive
state_after ExecutionResult.disconnected o = some disconnected
state_after task_submitted o = some submitted

abbrev pub state_after_report : Option ExecutionResult → Option ExecutorState → Option ExecutorState
state_after_report none o = o
state_after_report (some result) o = state_after result o

-- One executor's state after the messages of the stream, none of the others' considered.
abbrev pub client_state :
    Bool
    → String
    → List (Result (Option TaskResponse) String)
    → Option ExecutorState
    → Option ExecutorState
client_state raw id [] o = o
client_state raw id (ok (some (matching_executors ids)) ∷ messages) o =
    client_state raw id messages (if not raw && any ids (λ i. i == id) then some matching else o)
client_state raw id (ok (some (task_execution_result r)) ∷ messages) o =
    client_state raw id messages
      (if r.client_id == id then state_after_report r.execution_result o else o)
client_state raw id (ok none ∷ messages) o = client_state raw id messages o
client_state raw id (err e ∷ messages) o = client_state raw id messages o

get-set_matching :
    (id : String) (ids : List String) (m : HashMap ExecutorState)
    → HashMap.get id (set_matching ids m)
      ≡ (if any ids (λ i. i == id) then some matching else HashMap.get id m)
unfolding set_matching
get-set_matching id [] m = refl
get-set_matching id (i ∷ ids) m = ground (
  arith,
  get-set_matching id ids (HashMap.insert i matching m),
  HashMap.get-insert id i matching m,
)

set_matching-NodupKeys :
    (ids : List String) (m : HashMap ExecutorState) → NodupKeys m → NodupKeys (set_matching ids m)
unfolding set_matching
set_matching-NodupKeys [] m u = u
set_matching-NodupKeys (i ∷ ids) m u =
    set_matching-NodupKeys ids (HashMap.insert i matching m)
      (HashMap.insert-NodupKeys i matching m u)

module _ (options : CommandOptions) (tty : Bool) (line : String → String) where
  get-on_result :
      (j id : String) (result : ExecutionResult) (p : Progress)
      → HashMap.get j (on_result options tty line id result p).executors ≡ (
          if id == j
          then state_after result (HashMap.get j p.executors)
          else HashMap.get j p.executors)
  unfolding on_result set_state inc
  get-on_result j id (task_rejected reason) p =
      ground (arith, HashMap.get-insert j id error p.executors)
  get-on_result j id task_aborted p = ground (arith, HashMap.get-insert j id error p.executors)
  get-on_result j id (task_completed code) p =
      ground (arith, HashMap.get-insert j id (if nat_eq code 0 then success else error) p.executors)
  get-on_result j id (task_output none) p = ground arith
  get-on_result j id (task_output (some output)) p = ground arith
  get-on_result j id ping p = ground (arith, HashMap.get-insert j id alive p.executors)
  get-on_result j id ExecutionResult.disconnected p =
      ground (arith, HashMap.get-insert j id disconnected p.executors)
  get-on_result j id task_submitted p =
      ground (arith, HashMap.get-insert j id submitted p.executors)

  on_result-NodupKeys :
      (id : String) (result : ExecutionResult) (p : Progress)
      → NodupKeys p.executors
      → NodupKeys (on_result options tty line id result p).executors
  unfolding on_result set_state inc
  on_result-NodupKeys id (task_rejected reason) p u =
      ground (arith, HashMap.insert-NodupKeys id error p.executors u)
  on_result-NodupKeys id task_aborted p u =
      ground (arith, HashMap.insert-NodupKeys id error p.executors u)
  on_result-NodupKeys id (task_completed code) p u =
      ground (
        arith,
        HashMap.insert-NodupKeys id (if nat_eq code 0 then success else error) p.executors u,
      )
  on_result-NodupKeys id (task_output none) p u = u
  on_result-NodupKeys id (task_output (some output)) p u = ground (arith, u)
  on_result-NodupKeys id ping p u = HashMap.insert-NodupKeys id alive p.executors u
  on_result-NodupKeys id ExecutionResult.disconnected p u =
      HashMap.insert-NodupKeys id disconnected p.executors u
  on_result-NodupKeys id task_submitted p u = HashMap.insert-NodupKeys id submitted p.executors u

  -- The same for a response, once it was taken.
  abbrev Follows : List (Result (Option TaskResponse) String) → Progress → Progress → Type 0
  Follows messages p q =
      ((j : String)
        → HashMap.get j q.executors
          ≡ client_state options.raw j messages (HashMap.get j p.executors))
      × (NodupKeys p.executors → NodupKeys q.executors)

  Follows-response :
      (response : TaskResponse) (p q : Progress)
      → on_response options tty line response p ≡ some q
      → Follows (ok (some response) ∷ []) p q
  unfolding on_response
  Follows-response (matching_executors ids) p q h = elim (Bool-cases options.raw) [
    | inl raw ↦ (λ j. ground (arith, raw), λ u. ground (arith, raw, u))
    | inr shown ↦ (
      λ j. ground (arith, shown, get-set_matching j ids p.executors),
      λ u. ground (arith, shown, set_matching-NodupKeys ids p.executors u),
    )
  ]
  Follows-response (task_execution_result r) p q h = elim (Option-cases r.execution_result) [
    | inl missing ↦ absurd (ground (arith, missing))
    | inr (result, given) ↦ (
      λ j. ground (arith, given, get-on_result j r.client_id result p),
      λ u. ground (arith, given, on_result-NodupKeys r.client_id result p u),
    )
  ]

  client_state_cons :
      (j : String) (m : Result (Option TaskResponse) String)
      (messages : List (Result (Option TaskResponse) String)) (o : Option ExecutorState)
      → client_state options.raw j (m ∷ messages) o
        ≡ client_state options.raw j messages (client_state options.raw j (m ∷ []) o)
  client_state_cons j (err e) messages o = refl
  client_state_cons j (ok none) messages o = refl
  client_state_cons j (ok (some (matching_executors ids))) messages o = refl
  client_state_cons j (ok (some (task_execution_result r))) messages o = refl

  collect_ok :
      (messages : List (Result (Option TaskResponse) String)) (p q : Progress)
      → collect options tty line messages p ≡ ok q
      → Follows messages p q
  unfolding collect
  collect_ok [] p q h = (
    λ j. ap (λ q. HashMap.get j q.executors) (sym (ok-injective p q h)),
    λ u. rw (← ok-injective p q h) u,
  )
  collect_ok (err e ∷ messages) p q h = absurd (ground arith)
  collect_ok (ok none ∷ messages) p q h = absurd (ground arith)
  collect_ok (ok (some response) ∷ messages) p q h =
      elim (Option-cases (on_response options tty line response p)) [
        | inl missing ↦ absurd (ground (arith, missing))
        | inr (t, taken) ↦
            let (first, kept) = Follows-response response p t taken in
            let (rest, kept_too) = collect_ok messages t q (ground (arith, taken)) in
            (
              λ j.
                  rest j
                  ∙ ap (client_state options.raw j messages) (first j)
                  ∙ sym (
                      client_state_cons j (ok (some response)) messages
                        (HashMap.get j p.executors)),
              λ u. kept_too (kept u),
            )
      ]

success_of_all :
    (m : HashMap ExecutorState) (j : String) (st : ExecutorState)
    → all_success m ≡ true
    → HashMap.get j m ≡ some st
    → st ≡ success
unfolding all_success HashMap.get
success_of_all [] j st h found = absurd (ground arith)
success_of_all ((k, s) ∷ m) j st h found = ground (arith, success_of_all m j st)

all_success_of :
    (m : HashMap ExecutorState)
    → NodupKeys m
    → ((j : String) (st : ExecutorState) → HashMap.get j m ≡ some st → st ≡ success)
    → all_success m ≡ true
unfolding all_success HashMap.get HashMap.contains_key
all_success_of [] u h = refl
all_success_of ((k, s) ∷ m) (fresh, u) h =
    rw (h k s (ground (arith, eq_iff k k)))
      (all_success_of m u (λ j st found. h j st (ground (arith, fresh, found, eq_iff k j))))

-- The process ends with 0.
success_of_iff :
    (m : HashMap ExecutorState)
    → NodupKeys m
    → (success_of m ≡ true) ↔ (
        ((j : String) × (st : ExecutorState) × (HashMap.get j m ≡ some st))
        × ((j : String) (st : ExecutorState) → HashMap.get j m ≡ some st → st ≡ success))
unfolding success_of HashMap.get
success_of_iff [] u = (λ h. absurd (ground arith), λ (found, all). absurd (ground (arith, found.2)))
success_of_iff ((k, s) ∷ m) u = (
  λ h. ((k, s, ground (arith, eq_iff k k)), λ j st found. success_of_all ((k, s) ∷ m) j st h found),
  λ (found, all). all_success_of ((k, s) ∷ m) u all,
)

-- When the messages have been taken in, the process exits with 0 exactly when there is an executor
-- that they put into some state, and the last state that they put each executor into is success.
pub do_handle_cmd-eq-exit_iff :
    (options : CommandOptions) (tty : Bool) (line : String → String)
    (messages : List (Result (Option TaskResponse) String)) (p : Progress)
    → options.no_std_process_return ≡ false
    → collect options tty line messages at_start ≡ ok p
    → (do_handle_cmd options tty line messages ≡ ok (exit 0)) ↔ (
        ((j : String) × (st : ExecutorState) × (client_state options.raw j messages none ≡ some st))
        × ((j : String) (st : ExecutorState)
            → client_state options.raw j messages none ≡ some st
            → st ≡ success))
unfolding do_handle_cmd finish HashMap.get
do_handle_cmd-eq-exit_iff options tty line messages p real taken =
    let (states, unique) = collect_ok options tty line messages at_start p taken in
    let (to, from) = success_of_iff p.executors (unique tt) in
    (
      λ h.
          let ((j, st, found), all) = to (ground (arith, real, taken)) in
          ((j, st, sym (states j) ∙ found), λ j st known. all j st (states j ∙ known)),
      λ ((j, st, known), all).
          let good =
            from ((j, st, states j ∙ known), λ j st found. all j st (sym (states j) ∙ found)) in
          ground (arith, real, taken, good),
    )
