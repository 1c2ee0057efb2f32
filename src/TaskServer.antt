-- ===== src/TaskServer.antt =====
-- common/src/task_server.rs: the state of the task server and its methods.
pub mod Protocol
pub mod Env
pub mod State
pub mod Keys
pub mod Registry
pub mod ExecutorService
pub mod CommanderService
pub mod Frame
pub mod Authority
pub mod Approval
pub mod Registering
pub mod Registration
pub mod Sending
pub mod Sinks
pub mod Dropping
pub mod Admission
pub mod Launch
pub mod Start
pub mod Samples
mod Tests
