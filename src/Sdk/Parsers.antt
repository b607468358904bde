-- ===== src/Sdk/Parsers.antt =====
-- sdk/inferlog/parsers.py: what the capture reads from the HTTP traffic of each provider.
--
-- Every exception in this code is an `Exception` that its callers catch without looking at it, so
-- an `Option` says whether one was raised.
pub mod Values
pub mod Requests
pub mod Responses
pub mod Streams
pub mod Registry
mod Tests
