-- ===== src/Tests.antt =====
-- Concrete runs of the modelled code, at which the theorems apply.
mod Demo
mod Consensus
mod Mining
mod Seal
mod Receipts
mod Objects
mod Proofs
mod Blocks
mod Engines
mod Accepted
