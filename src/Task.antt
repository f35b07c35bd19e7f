-- ===== src/Task.antt =====
-- The life of a task: worker/core (task states, the cyclical rewrite) and worker/task_repositories.
pub mod State
pub mod Cyclical
pub mod Storage
pub mod Rows
pub mod Repository
pub mod Machine
pub mod Rollup
pub mod Create
