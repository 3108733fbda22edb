-- ===== src/Tests.antt =====
-- Tests of the definitions, and the theorems at concrete inputs.
mod Samples
mod Storage
mod Objects
mod Progress
mod Routing
mod Copilot
mod Agent
mod Identity
mod Queue
mod Executor
mod Ingestion
