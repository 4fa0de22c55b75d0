-- ===== src/HotStuff.antt =====
-- internal/hotstuff/hotstuff.go: the validator set, quorum certificates and the replica.
pub mod Errors
pub mod Validators
pub mod Replica
pub mod Quorum
pub mod Certificates
pub mod History
pub mod Voting
pub mod Agreement
pub mod Unmoved
pub mod Chain
pub mod Forks
