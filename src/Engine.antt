-- ===== src/Engine.antt =====
-- internal/engine: execution payload envelopes, their quantities and hashes as text, and the mock engine.
pub mod Quantity
pub mod Envelope
pub mod Mock
pub mod Built
