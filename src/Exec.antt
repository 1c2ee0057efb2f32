-- ===== src/Exec.antt =====
-- exec/src/lib.rs: what is reported of a command that runs.
pub mod Process
pub mod Events
pub mod Reports
pub mod Waiting
pub mod Faithful
pub mod Progress
mod Tests
use funtonic.Base.{ℕ, String, Option}

-- `Type`, `Line` and `ExecEvent` of exec/src/lib.rs; an exit code is kept as its 32 bits.
pub data LineType : Type 0 where
  out error : LineType

pub record Line : Type 0 where
  pub line_type : LineType
  pub line : String

pub data ExecEvent : Type 0 where
  started : ExecEvent
  finished : Option ℕ → ExecEvent
  line_emitted : Line → ExecEvent
