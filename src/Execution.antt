-- ===== src/Execution.antt =====
-- v2/src/footballai_v2/execution: the records of jobs, the local queue and the executor.
pub mod Job
pub mod Queue
pub mod Progress
pub mod Attempts
pub mod Coordinator
pub mod Executor
