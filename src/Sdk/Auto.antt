-- ===== src/Sdk/Auto.antt =====
-- sdk/inferlog/auto.py: capture at the level of httpx.
pub mod Classify
pub mod Emit
pub mod Capture
pub mod Stream
mod Tests
