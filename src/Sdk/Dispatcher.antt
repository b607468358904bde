-- ===== src/Sdk/Dispatcher.antt =====
-- sdk/inferlog/dispatcher.py: the bounded queue and the background flusher.
--
-- `P` is the type of the payload dictionaries. The sink is the environment: each `send` ends in a
-- `Reply`. Times are milliseconds, and a back-off is recorded by its delay before the jitter.
pub mod Sink
pub mod Queue
pub mod Delivery
pub mod Worker
mod Tests
