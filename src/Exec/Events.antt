-- ===== src/Exec/Events.antt =====
-- What the events of exec/src/a_sync.rs say of the streams and of the exit.
use funtonic.Base.{
  ℕ, String, ◌≡◌, refl, sym, Bool, true, false, Option, List, [], ◌∷◌, ◌++◌, ok, err,
}
use mathlib.Core.List.{append_assoc}
use funtonic.Exec.{LineType, out, error, ExecEvent, started, finished, line_emitted}
use funtonic.Exec.Process.{Stream, Reader, reading, ended}

abbrev pub same_type : LineType → LineType → Bool
same_type out out = true
same_type error error = true
same_type out error = false
same_type error out = false

abbrev pub when : Bool → String → List String
when true line = line ∷ []
when false line = []

abbrev pub text_of : LineType → ExecEvent → List String
text_of t started = []
text_of t (finished c) = []
text_of t (line_emitted line) = when (same_type line.line_type t) line.line

-- The lines of one stream among the events.
abbrev pub texts_of : LineType → List ExecEvent → List String
texts_of t [] = []
texts_of t (event ∷ events) = text_of t event ++ texts_of t events

abbrev pub code_of : ExecEvent → List (Option ℕ)
code_of started = []
code_of (finished c) = c ∷ []
code_of (line_emitted line) = []

-- The exit codes that are reported.
abbrev pub codes : List ExecEvent → List (Option ℕ)
codes [] = []
codes (event ∷ events) = code_of event ++ codes events

-- The lines of a stream up to its end or its first error.
abbrev pub readable : Stream → List String
readable [] = []
readable (ok line ∷ rest) = line ∷ readable rest
readable (err e ∷ rest) = []

abbrev pub unread : Reader → List String
unread (reading rest) = readable rest
unread ended = []

pub texts_of-append :
    (t : LineType) (xs ys : List ExecEvent) → texts_of t (xs ++ ys) ≡ texts_of t xs ++ texts_of t ys
texts_of-append t [] ys = refl
texts_of-append t (x ∷ xs) ys =
    rw (texts_of-append t xs ys) (sym (append_assoc (text_of t x) (texts_of t xs) (texts_of t ys)))

pub codes-append : (xs ys : List ExecEvent) → codes (xs ++ ys) ≡ codes xs ++ codes ys
codes-append [] ys = refl
codes-append (x ∷ xs) ys =
    rw (codes-append xs ys) (sym (append_assoc (code_of x) (codes xs) (codes ys)))
