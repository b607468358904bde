-- ===== src/Examples.antt =====
-- The examples and the scripts of the repository: code that a host adds around the SDK.
pub mod Acme
pub mod Embedded
pub mod Seed
