-- ===== src/Exec/Waiting.antt =====
-- `wait_for_exit` of exec/src/a_sync.rs: what it reports.
use funtonic.Base.{
  ◌≡◌, refl, Bool, true, false, ◌&&◌, Option, none, some, List, [], ◌∷◌, ◌++◌, ok, err, arith,
}
use mathlib.Core.List.{append-nil}
use funtonic.Exec.{LineType, ExecEvent, started}
use funtonic.Exec.Process.{
  Reader, reading, ended, Waiter, spawned, joining, waiting, completed, killed, panicked,
  ExitStatus, exit_of, Running, has_ended, select_joined, select_exit, wait_for_exit,
}
use funtonic.Exec.Events.{texts_of, codes, codes-append}
use funtonic.Exec.Reports.{Reported}

pub has_ended_lem : (r : Reader) → has_ended r ≡ true → r ≡ ended
unfolding has_ended
has_ended_lem (reading rest) h = absurd (cc)
has_ended_lem ended h = refl

-- A state after `wait_for_exit` has sent something and stands elsewhere.
abbrev pub after : Running → Waiter × List ExecEvent → Running
after s (w, sent) = record s { waiter = w; events = s.events ++ sent }

abbrev pub Leads : Running → Waiter × List ExecEvent → Type 0
Leads s next = Reported (after s next) next.0

pub silent : (s : Running) → codes s.events ≡ [] → codes (s.events ++ []) ≡ []
silent s h = rw (append-nil s.events) h

pub joining-Leads :
    (s : Running) (joined prefers_kill : Bool)
    → (joined ≡ true → (s.stdout ≡ ended) × (s.stderr ≡ ended))
    → codes s.events ≡ []
    → (kill : Bool) → Leads s (select_joined joined kill prefers_kill, [])
unfolding select_joined
joining-Leads s true true end h true = silent s h
joining-Leads s true false end h true = let (outs, errs) = end refl in (silent s h, outs, errs)
joining-Leads s true b end h false = let (outs, errs) = end refl in (silent s h, outs, errs)
joining-Leads s false b end h true = silent s h
joining-Leads s false b end h false = silent s h

pub exit-Leads :
    (s : Running) (status : ExitStatus)
    → s.status ≡ some status
    → codes s.events ≡ []
    → s.stdout ≡ ended
    → s.stderr ≡ ended
    → Leads s (exit_of status)
unfolding exit_of
exit-Leads s (ok c) known h outs errs = (
  c,
  s.events,
  record { last = refl; once = h; status = known; outs_ended = outs; errs_ended = errs },
)
exit-Leads s (err e) known h outs errs = silent s h

pub waiting-Leads :
    (s : Running) (status : Option ExitStatus) (kill prefers_kill : Bool)
    → s.status ≡ status
    → codes s.events ≡ []
    → s.stdout ≡ ended
    → s.stderr ≡ ended
    → Leads s (select_exit status kill prefers_kill)
unfolding select_exit
waiting-Leads s (some status) true true known h outs errs = silent s h
waiting-Leads s (some status) true false known h outs errs = exit-Leads s status known h outs errs
waiting-Leads s (some status) false b known h outs errs = exit-Leads s status known h outs errs
waiting-Leads s none true b known h outs errs = silent s h
waiting-Leads s none false b known h outs errs = (silent s h, outs, errs)

pub wait-Leads :
    (s : Running) (prefers_kill : Bool) (w : Waiter)
    → Reported s w
    → Leads s
        (wait_for_exit w (has_ended s.stdout && has_ended s.stderr) s.kill s.status prefers_kill)
unfolding wait_for_exit
wait-Leads s b spawned h = rw (codes-append s.events (started ∷ []), h)
wait-Leads s b joining h = joining-Leads s _ b both h s.kill
  where
    both : has_ended s.stdout && has_ended s.stderr ≡ true → (s.stdout ≡ ended) × (s.stderr ≡ ended)
    both e =
        (has_ended_lem s.stdout (ground (arith, e)), has_ended_lem s.stderr (ground (arith, e)))
wait-Leads s b waiting (h, outs, errs) = waiting-Leads s s.status s.kill b refl h outs errs
wait-Leads s b completed (c, before, d) = (
  c,
  before,
  record {
    last = rw (append-nil s.events) (d.last);
    once = d.once;
    status = d.status;
    outs_ended = d.outs_ended;
    errs_ended = d.errs_ended;
  },
)
wait-Leads s b killed h = silent s h
wait-Leads s b panicked h = silent s h

-- `wait_for_exit` sends no line.
pub wait-texts :
    (t : LineType) (w : Waiter) (joined kill prefers_kill : Bool) (status : Option ExitStatus)
    → texts_of t (wait_for_exit w joined kill status prefers_kill).1 ≡ []
unfolding wait_for_exit exit_of
wait-texts t waiting joined kill b status = ground arith
wait-texts t _ joined kill b status = refl
