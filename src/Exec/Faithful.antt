-- ===== src/Exec/Faithful.antt =====
-- The reports of exec/src/a_sync.rs, in whatever order its tasks run.
use funtonic.Base.{
  ℕ, String, ◌≡◌, refl, sym, ◌∙◌, ◌⊎◌, inl, inr, Option, some, List, [], ◌∷◌, ◌++◌, ok,
}
use mathlib.Core.List.{append_assoc, append-nil}
use funtonic.Exec.{LineType, out, error, ExecEvent, finished}
use funtonic.Exec.Process.{
  Stream, Reader, ended, Waiter, spawned, joining, waiting, completed, killed, panicked, Running,
  spawn_tasks, Turn, read, wait, ask_kill, exit, step, run_turns,
}
use funtonic.Exec.Events.{texts_of, codes, readable, unread, texts_of-append}
use funtonic.Exec.Reports.{
  Completed, Reported, Reported-IsQuiet, read_line_moves, read_line_other, read_out-IsQuiet,
  read_error-IsQuiet, ask_kill-IsQuiet, exit-IsQuiet,
}
use funtonic.Exec.Waiting.{wait-Leads, wait-texts}

record IsFaithful (stdout stderr : Stream) (s : Running) : Type 0 where
  outs : texts_of out s.events ++ unread s.stdout ≡ readable stdout
  errs : texts_of error s.events ++ unread s.stderr ≡ readable stderr
  reported : Reported s s.waiter

step-IsFaithful :
    (stdout stderr : Stream) (turn : Turn) (s : Running)
    → IsFaithful stdout stderr s
    → IsFaithful stdout stderr (step turn s)
unfolding step
step-IsFaithful stdout stderr (read out) s f = record {
  outs = simp (texts_of-append, append_assoc, read_line_moves) (f.outs);
  errs = simp (texts_of-append, append-nil, read_line_other out error s.stdout refl) (f.errs);
  reported = Reported-IsQuiet s.waiter (read_out-IsQuiet s) (f.reported);
}
step-IsFaithful stdout stderr (read error) s f = record {
  outs = simp (texts_of-append, append-nil, read_line_other error out s.stderr refl) (f.outs);
  errs = simp (texts_of-append, append_assoc, read_line_moves) (f.errs);
  reported = Reported-IsQuiet s.waiter (read_error-IsQuiet s) (f.reported);
}
step-IsFaithful stdout stderr (wait b) s f = record {
  outs = simp (texts_of-append, append-nil, wait-texts out) (f.outs);
  errs = simp (texts_of-append, append-nil, wait-texts error) (f.errs);
  reported = wait-Leads s b s.waiter (f.reported);
}
step-IsFaithful stdout stderr ask_kill s f = record {
  outs = f.outs;
  errs = f.errs;
  reported = Reported-IsQuiet s.waiter (ask_kill-IsQuiet s) (f.reported);
}
step-IsFaithful stdout stderr (exit status) s f = record {
  outs = f.outs;
  errs = f.errs;
  reported = Reported-IsQuiet s.waiter (exit-IsQuiet status s) (f.reported);
}

run_turns-IsFaithful :
    (stdout stderr : Stream) (turns : List Turn) (s : Running)
    → IsFaithful stdout stderr s
    → IsFaithful stdout stderr (run_turns turns s)
unfolding run_turns
run_turns-IsFaithful stdout stderr [] s f = f
run_turns-IsFaithful stdout stderr (turn ∷ turns) s f =
    run_turns-IsFaithful stdout stderr turns (step turn s) (step-IsFaithful stdout stderr turn s f)

-- The command's exit is the last thing that is reported, once, after every line that can be read from
-- both streams, with the code that the process exited with.
pub record Exited (stdout stderr : Stream) (s : Running) (c : Option ℕ) (before : List ExecEvent)
    : Type 0 where
  pub last : s.events ≡ before ++ (finished c ∷ [])
  pub once : codes before ≡ []
  pub status : s.status ≡ some (ok c)
  pub all_outs : texts_of out before ≡ readable stdout
  pub all_errs : texts_of error before ≡ readable stderr

module _ (stdout stderr : Stream) (s : Running) (f : IsFaithful stdout stderr s) where
  Completed-Exited :
      (c : Option ℕ) (before : List ExecEvent)
      → Completed s c before
      → Exited stdout stderr s c before
  Completed-Exited c before d = record {
    last = d.last;
    once = d.once;
    status = d.status;
    all_outs = all out (s.stdout) (d.outs_ended) (readable stdout) (f.outs);
    all_errs = all error (s.stderr) (d.errs_ended) (readable stderr) (f.errs);
  }
    where
      all :
          (t : LineType) (r : Reader)
          → r ≡ ended
          → (lines : List String) → texts_of t s.events ++ unread r ≡ lines
          → texts_of t before ≡ lines
      all t r e lines h =
          sym (append-nil (texts_of t before))
          ∙ sym (texts_of-append t before (finished c ∷ []))
          ∙ sym (append-nil (texts_of t (before ++ (finished c ∷ []))))
          ∙ (rw (d.last, e) at h)

  Exited-or_not :
      (w : Waiter)
      → Reported s w
      → (codes s.events ≡ [])
        ⊎ ((c : Option ℕ) × (before : List ExecEvent) × Exited stdout stderr s c before)
  Exited-or_not spawned h = inl h
  Exited-or_not joining h = inl h
  Exited-or_not waiting h = inl h.0
  Exited-or_not completed (c, before, d) = inr (c, before, Completed-Exited c before d)
  Exited-or_not killed h = inl h
  Exited-or_not panicked h = inl h

spawned-IsFaithful :
    (stdout stderr : Stream) (turns : List Turn)
    → IsFaithful stdout stderr (run_turns turns (spawn_tasks stdout stderr))
unfolding spawn_tasks
spawned-IsFaithful stdout stderr turns =
    run_turns-IsFaithful stdout stderr turns (spawn_tasks stdout stderr)
      (record { outs = refl; errs = refl; reported = refl })

-- In whatever order the tasks of a command run, with the process exiting and the caller asking to kill
-- at any time, the lines that are reported for each stream, and those it has yet to read, are its
-- lines in their order up to its first error. Either no exit is reported, or one is, as the last
-- event, after all the lines of both streams and with the code that the process exited with.
pub run_turns-Exited :
    (stdout stderr : Stream) (turns : List Turn)
    → let s = run_turns turns (spawn_tasks stdout stderr) in
      (texts_of out s.events ++ unread s.stdout ≡ readable stdout)
      × (texts_of error s.events ++ unread s.stderr ≡ readable stderr)
      × ((codes s.events ≡ [])
          ⊎ ((c : Option ℕ) × (before : List ExecEvent) × Exited stdout stderr s c before))
run_turns-Exited stdout stderr turns =
    let s = run_turns turns (spawn_tasks stdout stderr) in
    let f = spawned-IsFaithful stdout stderr turns in
    (f.outs, f.errs, Exited-or_not stdout stderr s f s.waiter (f.reported))

completed_reports :
    (s : Running) (w : Waiter)
    → Reported s w
    → w ≡ completed
    → (c : Option ℕ) × (before : List ExecEvent) × Completed s c before
completed_reports s spawned h e = absurd (cc)
completed_reports s joining h e = absurd (cc)
completed_reports s waiting h e = absurd (cc)
completed_reports s completed h e = h
completed_reports s killed h e = absurd (cc)
completed_reports s panicked h e = absurd (cc)

-- Where `wait_for_exit` has returned after reporting the exit, with a status of one code at most.
pub completed-Exited :
    (stdout stderr : Stream) (turns : List Turn) (code : Option ℕ)
    → let s = run_turns turns (spawn_tasks stdout stderr) in
      s.waiter ≡ completed
      → ((c : Option ℕ) → s.status ≡ some (ok c) → c ≡ code)
      → (before : List ExecEvent) × Exited stdout stderr s code before
completed-Exited stdout stderr turns code h same =
    let s = run_turns turns (spawn_tasks stdout stderr) in
    let f = spawned-IsFaithful stdout stderr turns in
    let (c, before, d) = completed_reports s s.waiter (f.reported) h in
    let e = Completed-Exited stdout stderr s f c before d in
    let known = same c (d.status) in (before, rw (← known) e)
