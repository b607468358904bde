-- ===== src/Gateway.antt =====
-- The chat gateway, gateway/app.
pub mod Store
pub mod Conversations
pub mod Llm
pub mod Chat
pub mod Service
mod Tests
