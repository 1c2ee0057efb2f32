-- ===== src/Commander/Interactive/Wanted.antt =====
-- The command lines that an interactive session of commander/src/cmd.rs is to send, and what it means to
-- send them.
use mathlib.Core.List.{Forall₂, append-nil, append_assoc}
use funtonic.Base.{
  String, ◌≡◌, refl, ◌⊎◌, inl, inr, List, [], ◌∷◌, ◌++◌, Result, ok, err, Option, Bool, sym, ap,
  ◌∙◌,
}
use funtonic.Base.Action.{pure, fail, bind_of_ok, bind_of_err, ◌>>◌}
use funtonic.TaskServer.Protocol.{LaunchTaskRequest, TaskResponse, execute_command}
use funtonic.TaskServer.Env.{Env, parse_text}
use funtonic.Commander.Results.{CommandOptions}
use funtonic.Commander.Outcome.{SessionEnd, refused, outcome, IsFailure}
use funtonic.Commander.Requests.{HandleError, query, safeguard_command, Session, launch_request}
use funtonic.Commander.Interactive.{
  Moment, Input, typed, interrupted, end_of_file, failed, Sent, Conversation, at,
}

Forall₂-append :
    {A B : Type 0} {R : A → B → Type 0} {xs xs' : List A} {ys ys' : List B}
    → Forall₂ R xs ys
    → Forall₂ R xs' ys'
    → Forall₂ R (xs ++ xs') (ys ++ ys')
Forall₂-append Forall₂.nil k = k
Forall₂-append (Forall₂.cons r h) k = Forall₂.cons r (Forall₂-append h k)

-- A command line to be sent, with the moment at which it is, and the options.
abbrev pub Wanted : Type 0
Wanted = String × Moment × CommandOptions

unfoldable pub add_if : Result (Unit {0}) HandleError → Wanted → List Wanted → List Wanted
add_if (ok _) w ws = w ∷ ws
add_if (err e) w ws = ws

module _ (E : Env) (session : Session) (stdout_is_tty : Bool) (stderr_line : String → String)
    (launch_task : LaunchTaskRequest
      → Result (List (Result (Option TaskResponse) String)) String) where
  -- The lines typed before the session is ended that the safeguard lets through, with the answer that
  -- the user gives to this line.
  unfoldable pub let_through : CommandOptions → List Input → List Wanted
  unfolding add_if
  let_through options [] = []
  let_through options (typed line m ∷ more) =
      let rest = let_through options more in
      add_if (safeguard_command (session.multiparse line) session.stdin_is_tty m.answer)
        (line, m, options) rest
  let_through options (interrupted ∷ more) = []
  let_through options (end_of_file ∷ more) = []
  let_through options (failed e ∷ more) = []

  -- The request is the signed one for the command line.
  abbrev pub Asks : String → Wanted → Sent → Type 0
  Asks predicate (line, m, options) (request, sent_options) =
      (sent_options ≡ options)
      × (launch_request E (at E session stdout_is_tty stderr_line launch_task m)
            (execute_command line) predicate
          ≡ ok request)

  -- Why a session ends early: its query does not parse, the next wanted line has no signed request, or
  -- the last request sent came to this error.
  abbrev pub Cause : String → List Wanted → List Sent → SessionEnd → Type 0
  Cause predicate rest sent e =
      ((x : String) × (parse_text E predicate ≡ err x) × (e ≡ refused (query x)))
      ⊎ (((line : String) × (m : Moment) × (options : CommandOptions) × (others : List Wanted)
            × (rest ≡ (line, m, options) ∷ others)
            × (x : HandleError) × (launch_request E
                  (at E session stdout_is_tty stderr_line launch_task m) (execute_command line)
                  predicate
                ≡ err x)
            × (e ≡ refused x))
          ⊎ ((before : List Sent) × (request : LaunchTaskRequest) × (options : CommandOptions)
              × (sent ≡ before ++ (request, options) ∷ [])
              × (outcome stdout_is_tty stderr_line launch_task request options ≡ err e)))

  Cause-then :
      (predicate : String) (rest more : List Wanted) (sent : List Sent) (e : SessionEnd)
      → Cause predicate rest sent e
      → Cause predicate (rest ++ more) sent e
  Cause-then predicate rest more sent e (inl unparsed) = inl unparsed
  Cause-then predicate rest more sent e
        (inr (inl (line, m, options, others, next, x, unsigned, same))) =
      inr (inl (line, m, options, others ++ more, ap (λ l. l ++ more) next, x, unsigned, same))
  Cause-then predicate rest more sent e (inr (inr last)) = inr (inr last)

  then-Cause :
      (predicate : String) (rest : List Wanted) (sooner sent : List Sent) (e : SessionEnd)
      → Cause predicate rest sent e
      → Cause predicate rest (sooner ++ sent) e
  then-Cause predicate rest sooner sent e (inl unparsed) = inl unparsed
  then-Cause predicate rest sooner sent e (inr (inl next)) = inr (inl next)
  then-Cause predicate rest sooner sent e (inr (inr (before, request, options, last, failed_by))) =
      inr (
        inr (
          sooner ++ before,
          request,
          options,
          ap (λ l. sooner ++ l) last ∙ sym (append_assoc sooner before ((request, options) ∷ [])),
          failed_by,
        ))

  -- What was sent asks for the first of the wanted lines, each once and in their order; for all of
  -- them, if the end is the given one, and otherwise the session has ended with an error, for a cause.
  abbrev pub Served :
      String
      → List Wanted
      → Result (Unit {0}) SessionEnd
      → List Sent
      → Result (Unit {0}) SessionEnd
      → Type 0
  Served predicate wanted well sent result =
      (served : List Wanted) × (rest : List Wanted) × (wanted ≡ served ++ rest)
      × Forall₂ (Asks predicate) served sent
      × (((rest ≡ []) × (result ≡ well))
          ⊎ ((e : SessionEnd) × (result ≡ err e) × IsFailure e × Cause predicate rest sent e))

  abbrev pub Serves :
      String
      → List Wanted
      → Result (Unit {0}) SessionEnd
      → Conversation E session stdout_is_tty stderr_line launch_task
      → Type 0
  Serves predicate wanted well c =
      (sent : List Sent)
      → (new : List Sent) × ((c sent).1 ≡ sent ++ new) × Served predicate wanted well new (c sent).0

  pub fail-Serves : (predicate : String) (e : SessionEnd) → Serves predicate [] (err e) (fail e)
  fail-Serves predicate e sent =
      ([], sym (append-nil sent), ([], [], refl, Forall₂.nil, inl (refl, refl)))

  pub pure-Serves : (predicate : String) → Serves predicate [] (ok tt) (pure tt)
  pure-Serves predicate sent =
      ([], sym (append-nil sent), ([], [], refl, Forall₂.nil, inl (refl, refl)))

  -- What two actions serve one after the other.
  pub then-Serves :
      (predicate : String) (ws vs : List Wanted) (well : Result (Unit {0}) SessionEnd)
      (c d : Conversation E session stdout_is_tty stderr_line launch_task)
      → Serves predicate ws (ok tt) c
      → Serves predicate vs well d
      → Serves predicate (ws ++ vs) well (c >> d)
  then-Serves predicate ws vs well c d first second sent =
      let (new, grown, (served, rest, split, asks, end)) = first sent in
      elim end [
        | inl (all, done) ↦
            let (new', grown', (served', rest', split', asks', end')) = second (c sent).1 in
            rw (bind_of_ok c (λ _. d) sent tt done) (
              new ++ new',
              grown' ∙ ap (λ l. l ++ new') grown ∙ append_assoc sent new new',
              (
                served ++ served',
                rest',
                ap (λ l. l ++ vs) (split ∙ ap (λ l. served ++ l) all ∙ append-nil served)
                    ∙ ap (λ l. served ++ l) split'
                    ∙ sym (append_assoc served served' rest'),
                Forall₂-append asks asks',
                elim end' [
                  | inl well_done ↦ inl well_done
                  | inr (e, failed_by, failure, cause) ↦
                      inr (e, failed_by, failure, then-Cause predicate rest' new new' e cause)
                ],
              ),
            )
        | inr (e, failed_by, failure, cause) ↦ rw (bind_of_err c (λ _. d) sent e failed_by) (
          new,
          grown,
          (
            served,
            rest ++ vs,
            ap (λ l. l ++ vs) split ∙ append_assoc served rest vs,
            asks,
            inr (e, refl, failure, Cause-then predicate rest vs new e cause),
          ),
        )
      ]
