-- ===== src/Workflow.antt =====
-- pkg/workflow: the engine that runs a job's code over its stored chapters.
pub mod Errors
pub mod Policy
pub mod Await
pub mod Task
pub mod Job
