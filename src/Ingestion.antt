-- ===== src/Ingestion.antt =====
-- The ingestion service, ingestion/app.
pub mod Events
pub mod Redaction
pub mod Enrich
pub mod Processing
pub mod Table
pub mod Worker
pub mod Api
pub mod Batch
pub mod Arrival
pub mod Dashboards
pub mod Endpoints
pub mod Health
mod Tests
