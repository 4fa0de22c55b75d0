-- ===== src/AiSeal.antt =====
-- internal/aiseal: the verifier of AISeal proofs.
pub mod Types
pub mod Errors
pub mod Encoding
pub mod Merkle
pub mod Page
pub mod Sample
pub mod Digest
pub mod Verify
pub mod Accepted
pub mod Distinct
