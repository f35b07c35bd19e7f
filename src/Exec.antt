-- ===== src/Exec.antt =====
-- Running a task: worker/core/step.py and pipeline.py, worker/execution, and what a worker does with
-- one task from its start to its stored result.
pub mod Step
pub mod Pipeline
pub mod Router
pub mod Process
pub mod Runner
