-- ===== src/Commander.antt =====
-- commander/src/cmd.rs: making requests and collecting the results.
pub mod Display
pub mod Outcome
pub mod Interactive
pub mod Admin
pub mod Results
pub mod Verdict
pub mod Words
pub mod Requests
pub mod Delivery
mod Tests
