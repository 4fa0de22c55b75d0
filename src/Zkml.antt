-- ===== src/Zkml.antt =====
-- internal/zkml/zkml.go: zero-knowledge proofs of a quantized linear model.
pub mod Circuit
pub mod Prover
pub mod Sound
pub mod Verified
