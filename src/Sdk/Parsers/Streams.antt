-- ===== src/Sdk/Parsers/Streams.antt =====
-- The stream parsers of sdk/inferlog/parsers.py: `StreamParser` and its three subclasses.
pub mod Lines
pub mod Feed
pub mod Chunks
pub mod GrowthRules
pub mod GrowthLines
pub mod Growth
