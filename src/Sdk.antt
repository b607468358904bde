-- ===== src/Sdk.antt =====
-- The SDK, sdk/inferlog.
pub mod Dispatcher
pub mod Events
pub mod Redaction
pub mod Sampling
pub mod Context
pub mod Parsers
pub mod Runtime
pub mod Auto
pub mod Client
pub mod Entry
