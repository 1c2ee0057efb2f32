-- ===== src/Executor.antt =====
-- executor/src/lib.rs: connecting, registering, reacting to tasks, reporting what
-- commands do.
pub mod Main
pub mod Restart
pub mod Connection
pub mod Dispatch
pub mod Orders
pub mod Loop
pub mod Reporting
pub mod Registration
mod Tests
