-- ===== src/AiPow.antt =====
-- internal/aipow/dummy.go: proof of work on tickets, and the winner among them.
pub mod Difficulty
pub mod Tickets
pub mod Bits
pub mod Mining
pub mod Winner
pub mod Runner
pub mod Quantized
