-- ===== src/Dag.antt =====
-- cmd/unifiedDAG/main.go: the generator of the unified AI-DAG, and its Merkle trees.
pub mod Hash
pub mod Tree
pub mod Accumulator
pub mod Levels
pub mod Nodes
pub mod Rises
pub mod Clash
pub mod Sound
pub mod Possession
pub mod Complete
