-- ===== src/Run.antt =====
-- The contract of an analysis run: v2/src/footballai_v2/contracts/v1/analysis_run.py.
pub mod Json
pub mod Status
pub mod Text
pub mod Record
pub mod Checks
pub mod Validate
pub mod Equality
pub mod Transition
