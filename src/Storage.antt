-- ===== src/Storage.antt =====
-- The storage package: rules and adapters.
pub mod Lifecycle
pub mod Local
pub mod Keys
pub mod Memory
pub mod Upload
