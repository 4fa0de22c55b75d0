-- ===== src/Node.antt =====
-- internal/node: what a node checks of a block before it votes, and the block that it proposes.
pub mod State
pub mod Collect
pub mod Plurality
pub mod Voters
pub mod Elected
pub mod Competition
pub mod Certificate
pub mod Validation
pub mod Proposal
pub mod ProofMap
pub mod Reordered
pub mod Proposed
pub mod Contest
pub mod Attested
pub mod Proved
pub mod Settled
pub mod Accepted
