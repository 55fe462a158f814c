-- ===== src/Api.antt =====
-- The session client of the RL server: src/sts2_training/api and selection_log.py.
pub mod Errors
pub mod Requests
pub mod Decision
pub mod Kinds
pub mod Responses
pub mod Exec
pub mod Interface
pub mod Client
pub mod Wire
pub mod Router
pub mod Tcp
mod Tests
