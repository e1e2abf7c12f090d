-- ===== src/Runner.antt =====
-- internal/runner: the service that carries out an approved plan in a workspace.
pub mod Idempotency
pub mod Service
pub mod Repeat
pub mod Handover
pub mod Outcome
pub mod Diff
pub mod Files
pub mod PathGuard
pub mod Rollback
mod Examples
