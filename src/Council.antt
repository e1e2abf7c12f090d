-- ===== src/Council.antt =====
-- internal/council: the deliberation of several models, from the brief to the execution plan.
pub mod Alias
pub mod SafePath
pub mod Plan
pub mod Workspace
pub mod Engine
pub mod Review
pub mod Workflow
pub mod Fixtures
