-- ===== src/Runner.antt =====
-- internal/runner: pacing and execution of the requests.
pub mod Pattern
pub mod Arrival
pub mod Options
pub mod Retry
pub mod Run
mod Tests
