-- ===== src/Exec/Progress.antt =====
-- The tasks of exec/src/a_sync.rs come to an end.
use funtonic.Base.{
  ℕ, suc, ◌+◌, ◌-◌, ◌≤◌, ◌≡◌, refl, Bool, true, false, ◌&&◌, Option, none, some, List, [], ◌∷◌,
  ◌++◌, ok, err, length, leb, arith, Bool-cases, inl, inr,
}
use funtonic.Exec.{LineType, out, error, ExecEvent}
use funtonic.Exec.Faithful.{Exited, completed-Exited}
use funtonic.Exec.Process.{
  Stream, Reader, reading, ended, Waiter, spawned, joining, waiting, completed, killed, panicked,
  ExitStatus, Running, spawn_tasks, read_line, has_ended, wait_for_exit, Turn, read, wait, exit,
  exited, step, run_turns,
}

-- Each task runs, after the process has exited; `select!` prefers what it likes.
abbrev pub round : Option ℕ → Bool → List Turn
round code prefers_kill = read out ∷ read error ∷ exit (ok code) ∷ wait prefers_kill ∷ []

abbrev pub rounds : Option ℕ → List Bool → List Turn
rounds code [] = []
rounds code (prefers_kill ∷ more) = round code prefers_kill ++ rounds code more

abbrev left_over : Reader → ℕ
left_over (reading rest) = suc (length rest)
left_over ended = 0

abbrev phase : Waiter → ℕ
phase spawned = 3
phase joining = 2
phase waiting = 1
phase completed = 0
phase killed = 0
phase panicked = 0

abbrev Alive : Waiter → Type 0
Alive killed = ⊥
Alive panicked = ⊥
Alive _ = Unit

-- The process has exited with this code, if it has.
abbrev Sound : Option ℕ → Option ExitStatus → Type 0
Sound code none = Unit
Sound code (some (ok c)) = c ≡ code
Sound code (some (err e)) = ⊥

record IsLive (code : Option ℕ) (k p : ℕ) (s : Running) : Type 0 where
  outs : left_over s.stdout ≤ k
  errs : left_over s.stderr ≤ k
  in_phase : phase s.waiter ≤ p
  alive : Alive s.waiter
  spared : s.kill ≡ false
  sound : Sound code s.status

read_line-left_over :
    (t : LineType) (r : Reader) (k : ℕ) → left_over r ≤ k → left_over (read_line t r).0 ≤ k - 1
unfolding read_line
read_line-left_over t (reading []) k h = omega arith
read_line-left_over t (reading (ok line ∷ rest)) k h = omega arith
read_line-left_over t (reading (err e ∷ rest)) k h = omega arith
read_line-left_over t ended k h = omega arith

left_over_none : (r : Reader) → left_over r ≤ 0 → has_ended r ≡ true
unfolding has_ended
left_over_none (reading rest) h = absurd (omega arith)
left_over_none ended h = refl

exited-Sound :
    (old : Option ExitStatus) (code : Option ℕ) → Sound code old → exited old (ok code) ≡ ok code
unfolding exited
exited-Sound none code h = refl
exited-Sound (some (ok c)) code h = rw h
exited-Sound (some (err e)) code h = elim h [ ]

-- `wait_for_exit` does not stand still once both streams have ended and the process has exited.
wait-phase :
    (w : Waiter) (joined prefers_kill : Bool) (c : Option ℕ)
    → Alive w
    → let next = (wait_for_exit w joined false (some (ok c)) prefers_kill).0 in
      Alive next × (phase next ≤ phase w) × (joined ≡ true → phase next ≤ phase w - 1)
unfolding wait_for_exit
wait-phase spawned joined b c h = (tt, omega arith, λ _. omega arith)
wait-phase joining true b c h = (tt, omega arith, λ _. omega arith)
wait-phase joining false b c h = (tt, omega arith, λ e. cc)
wait-phase waiting joined b c h = (tt, omega arith, λ _. omega arith)
wait-phase completed joined b c h = (tt, omega arith, λ _. omega arith)
wait-phase killed joined b c h = elim h [ ]
wait-phase panicked joined b c h = elim h [ ]

-- A round shortens what is left to read; when nothing is left it moves `wait_for_exit` on.
round-IsLive :
    (code : Option ℕ) (b : Bool) (k p : ℕ) (s : Running)
    → IsLive code k p s
    → IsLive code (k - 1) p (run_turns (round code b) s)
      × (k ≤ 1 → IsLive code 0 (p - 1) (run_turns (round code b) s))
unfolding run_turns
round-IsLive code b k p s live =
    let outs = read_line-left_over out s.stdout k (live.outs) in
    let errs = read_line-left_over error s.stderr k (live.errs) in
    let status = exited-Sound s.status code (live.sound) in
    let joined = has_ended (read_line out s.stdout).0 && has_ended (read_line error s.stderr).0 in
    let (alive, kept, moved) = wait-phase s.waiter joined b code (live.alive) in
    let reached = live.in_phase in
    rw (live.spared, status)
      (
        record {
          outs = outs;
          errs = errs;
          in_phase = omega arith;
          alive = alive;
          spared = refl;
          sound = refl;
        },
        λ none_left.
            let out_done = left_over_none (read_line out s.stdout).0 (omega arith) in
            let err_done = left_over_none (read_line error s.stderr).0 (omega arith) in
            let further = moved (rw (out_done, err_done)) in
            record {
              outs = omega arith;
              errs = omega arith;
              in_phase = omega arith;
              alive = alive;
              spared = refl;
              sound = refl;
            },
      )

run_turns-append :
    (xs ys : List Turn) (s : Running) → run_turns (xs ++ ys) s ≡ run_turns ys (run_turns xs s)
unfolding run_turns
run_turns-append [] ys s = refl
run_turns-append (x ∷ xs) ys s = run_turns-append xs ys (step x s)

rounds-IsLive :
    (code : Option ℕ) (preferences : List Bool) (k p : ℕ) (s : Running)
    → k + p ≤ length preferences
    → IsLive code k p s
    → IsLive code 0 0 (run_turns (rounds code preferences) s)
rounds-IsLive code [] k p s h live =
    unfold run_turns in
    record {
      outs = let reached = live.outs in omega arith;
      errs = let reached = live.errs in omega arith;
      in_phase = let reached = live.in_phase in omega arith;
      alive = live.alive;
      spared = live.spared;
      sound = live.sound;
    }
rounds-IsLive code (b ∷ more) k p s h live =
    let (shorter, further) = round-IsLive code b k p s live in
    rw (run_turns-append (round code b) (rounds code more) s) (elim (Bool-cases (leb k 1)) [
      | inl none_left ↦
          rounds-IsLive code more 0 (p - 1) (run_turns (round code b) s) (ground arith)
            (further (ground arith))
      | inr some_left ↦
          rounds-IsLive code more (k - 1) p (run_turns (round code b) s) (ground arith) shorter
    ])

completed_lem : (w : Waiter) → Alive w → phase w ≤ 0 → w ≡ completed
completed_lem spawned a h = absurd (omega arith)
completed_lem joining a h = absurd (omega arith)
completed_lem waiting a h = absurd (omega arith)
completed_lem completed a h = refl
completed_lem killed a h = elim a [ ]
completed_lem panicked a h = elim a [ ]

-- If nobody asks to kill, the process exits with `code`, and each task gets a turn in as many rounds as
-- a stream has lines and four more, then the exit is reported, as `Exited` says, with this code.
pub rounds-Exited :
    (stdout stderr : Stream) (code : Option ℕ) (preferences : List Bool)
    → length stdout + 4 ≤ length preferences
    → length stderr + 4 ≤ length preferences
    → (before : List ExecEvent) × Exited stdout stderr
        (run_turns (rounds code preferences) (spawn_tasks stdout stderr))
        code
        before
rounds-Exited stdout stderr code preferences outs errs =
    let s = run_turns (rounds code preferences) (spawn_tasks stdout stderr) in
    let start : IsLive code (length preferences - 3) 3 (spawn_tasks stdout stderr) =
      unfold spawn_tasks in
      record {
        outs = omega arith;
        errs = omega arith;
        in_phase = omega arith;
        alive = tt;
        spared = refl;
        sound = tt;
      } in
    let live = rounds-IsLive code preferences (length preferences - 3) 3 _ (omega arith) start in
    let reached = completed_lem s.waiter (live.alive) (live.in_phase) in
    completed-Exited stdout stderr (rounds code preferences) code reached
      (λ c e. let known = rw e at (live.sound) in known)
