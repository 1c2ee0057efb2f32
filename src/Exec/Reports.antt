-- ===== src/Exec/Reports.antt =====
-- exec/src/a_sync.rs: the report of the exit, and the turns that leave it as it is.
use funtonic.Base.{ℕ, ◌≡◌, refl, sym, ap, ◌∙◌, false, Option, some, List, [], ◌∷◌, ◌++◌, ok, err}
use mathlib.Core.List.{append-nil}
use funtonic.Exec.{LineType, out, error, ExecEvent, finished}
use funtonic.Exec.Process.{
  Reader, reading, ended, Waiter, spawned, joining, waiting, completed, killed, panicked,
  ExitStatus, Running, read_line, read, ask_kill, exit, exited, step,
}
use funtonic.Exec.Events.{same_type, texts_of, codes, unread, codes-append}

-- The exit is reported last and once, after all of both streams, with the code of the process.
pub record Completed (s : Running) (c : Option ℕ) (before : List ExecEvent) : Type 0 where
  pub last : s.events ≡ before ++ (finished c ∷ [])
  pub once : codes before ≡ []
  pub status : s.status ≡ some (ok c)
  pub outs_ended : s.stdout ≡ ended
  pub errs_ended : s.stderr ≡ ended

-- No exit is reported before `wait_for_exit` has got to it, and not at all if the command is killed.
abbrev pub Reported : Running → Waiter → Type 0
Reported s spawned = codes s.events ≡ []
Reported s joining = codes s.events ≡ []
Reported s waiting = (codes s.events ≡ []) × (s.stdout ≡ ended) × (s.stderr ≡ ended)
Reported s completed = (c : Option ℕ) × (before : List ExecEvent) × Completed s c before
Reported s killed = codes s.events ≡ []
Reported s panicked = codes s.events ≡ []

-- What a turn does, other than that of `wait_for_exit`: it sends no exit, and once both streams have
-- ended it sends nothing.
pub record IsQuiet (s t : Running) : Type 0 where
  pub sent : List ExecEvent
  pub sends : t.events ≡ s.events ++ sent
  pub no_code : codes sent ≡ []
  pub done :
      s.stdout ≡ ended → s.stderr ≡ ended → (sent ≡ []) × (t.stdout ≡ ended) × (t.stderr ≡ ended)
  pub status : (c : Option ℕ) → s.status ≡ some (ok c) → t.status ≡ some (ok c)

pub codes-IsQuiet : {s t : Running} → IsQuiet s t → codes s.events ≡ [] → codes t.events ≡ []
codes-IsQuiet {s} q h = rw (q.sends, codes-append s.events q.sent, h) (q.no_code)

pub Reported-IsQuiet : {s t : Running} (w : Waiter) → IsQuiet s t → Reported s w → Reported t w
Reported-IsQuiet spawned q h = codes-IsQuiet q h
Reported-IsQuiet joining q h = codes-IsQuiet q h
Reported-IsQuiet waiting q (h, outs, errs) =
    let (_, outs', errs') = q.done outs errs in (codes-IsQuiet q h, outs', errs')
Reported-IsQuiet completed q (c, before, d) =
    let (nothing, outs', errs') = q.done (d.outs_ended) (d.errs_ended) in
    (
      c,
      before,
      record {
        last = q.sends ∙ rw (nothing, append-nil) (d.last);
        once = d.once;
        status = q.status c (d.status);
        outs_ended = outs';
        errs_ended = errs';
      },
    )
Reported-IsQuiet killed q h = codes-IsQuiet q h
Reported-IsQuiet panicked q h = codes-IsQuiet q h

pub read_line-codes : (t : LineType) (r : Reader) → codes (read_line t r).1 ≡ []
unfolding read_line
read_line-codes t (reading []) = refl
read_line-codes t (reading (ok line ∷ rest)) = refl
read_line-codes t (reading (err e ∷ rest)) = refl
read_line-codes t ended = refl

pub read_line_done : (t : LineType) (r : Reader) → r ≡ ended → read_line t r ≡ (ended, [])
unfolding read_line
read_line_done t r h = rw h

-- A round moves a line from what is unread to what is sent.
pub read_line_moves :
    (t : LineType) (r : Reader)
    → texts_of t (read_line t r).1 ++ unread (read_line t r).0 ≡ unread r
unfolding read_line
read_line_moves t (reading []) = refl
read_line_moves out (reading (ok line ∷ rest)) = refl
read_line_moves error (reading (ok line ∷ rest)) = refl
read_line_moves t (reading (err e ∷ rest)) = refl
read_line_moves t ended = refl

pub read_line_other :
    (t u : LineType) (r : Reader) → same_type t u ≡ false → texts_of u (read_line t r).1 ≡ []
unfolding read_line
read_line_other t u (reading []) h = refl
read_line_other t u (reading (ok line ∷ rest)) h = rw h
read_line_other t u (reading (err e ∷ rest)) h = refl
read_line_other t u ended h = refl

pub exited_ok :
    (old : Option ExitStatus) (new : ExitStatus) (c : Option ℕ)
    → old ≡ some (ok c)
    → some (exited old new) ≡ some (ok c)
unfolding exited
exited_ok old new c h = rw h

pub read_out-IsQuiet : (s : Running) → IsQuiet s (step (read out) s)
unfolding step
read_out-IsQuiet s = record {
  sent = (read_line out s.stdout).1;
  sends = refl;
  no_code = read_line-codes out s.stdout;
  done = λ outs errs.
      let nothing = read_line_done out s.stdout outs in
      (ap (λ p. p.1) nothing, ap (λ p. p.0) nothing, errs);
  status = λ c h. h;
}

pub read_error-IsQuiet : (s : Running) → IsQuiet s (step (read error) s)
unfolding step
read_error-IsQuiet s = record {
  sent = (read_line error s.stderr).1;
  sends = refl;
  no_code = read_line-codes error s.stderr;
  done = λ outs errs.
      let nothing = read_line_done error s.stderr errs in
      (ap (λ p. p.1) nothing, outs, ap (λ p. p.0) nothing);
  status = λ c h. h;
}

pub ask_kill-IsQuiet : (s : Running) → IsQuiet s (step ask_kill s)
unfolding step
ask_kill-IsQuiet s = record {
  sent = [];
  sends = sym (append-nil s.events);
  no_code = refl;
  done = λ outs errs. (refl, outs, errs);
  status = λ c h. h;
}

pub exit-IsQuiet : (status : ExitStatus) (s : Running) → IsQuiet s (step (exit status) s)
unfolding step
exit-IsQuiet status s = record {
  sent = [];
  sends = sym (append-nil s.events);
  no_code = refl;
  done = λ outs errs. (refl, outs, errs);
  status = λ c h. exited_ok s.status status c h;
}
