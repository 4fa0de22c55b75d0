-- ===== src/Lib.antt =====
-- A model of AI_PoW_unifiedDAG, a chain whose blocks carry AI results, and proofs about it.
--
-- The program. A node (internal/node) finalizes blocks by HotStuff voting (internal/hotstuff). Miners
-- (internal/miner) run an AI job, attach a proof-of-work ticket (internal/aipow) and an AISeal proof
-- (internal/aiseal) that they hold pages of a large file, which cmd/unifiedDAG makes and commits to
-- by Merkle trees. With a zkML verifier (internal/zkml) a result also carries proofs that a quantized
-- model computed it. A node checks a block before it votes, and keeps finalized blocks in an object
-- store (internal/storage). The messages and their hashes are in internal/protocol.
--
-- The model.
--   Prelude     tests, lists, maps, sorting, Go's int, and Go's `(value, error)` as a result
--   Go          encoding/hex, encoding/binary, strings and decimal numbers of Go's standard library
--   Protocol    internal/protocol/types.go: Types has the messages, Hashes the functions, Primitives
--               what comes from outside: json.Marshal, json.Valid, sha256, BLAKE3, Ed25519, base64
--               and the Unicode tables, the fields of Crypto
--   HotStuff    internal/hotstuff/hotstuff.go: Validators has ValidatorSet, Replica has the replica;
--               History runs a replica on any list of calls of OnProposal and OnQC; Certificates,
--               Quorum, Voting, Agreement, Unmoved, Chain and Forks are about them
--   AiPow       internal/aipow/dummy.go: Difficulty has MeetsDifficulty, Tickets has Mine, Verify and
--               SelectWinner, Runner has DummyRunner; internal/aipow/runner.go: Quantized
--   AiSeal      internal/aiseal/hash.go, types.go and verify.go: Encoding has the hash inputs, Merkle
--               has verifyMerkleProof, Page has the page header, Sample has sampleUnique and
--               deriveRequiredPages, Digest has the digests, Verify has ValidateManifest, Verify and
--               VerifyExpected; Distinct is about the sampled indexes, Accepted takes an
--               accepted proof apart
--   Dag         cmd/unifiedDAG/main.go: Tree has MerkleTree, Accumulator has MerkleAccumulator; Sound,
--               Complete and Possession relate the trees to the verifier of AiSeal, and Clash is what
--               it takes to deceive it
--   Zkml        internal/zkml/zkml.go: Circuit has the circuit and Evaluate, Prover has Prove and
--               Verify; Sound compares the circuit with Evaluate, Verified is about what Groth16
--               promises
--   Storage     internal/storage/store.go: Atomic has writeAtomic as the calls of the operating system
--               that change files, Store has Put and Get, with the files as a map; Names is about
--               object names, Calls and Ends about writeAtomic, Content, Kept, Refines and Failures
--               about the operations
--   Engine      internal/engine/engine.go: Quantity has quantity and parseQuantity, Envelope has
--               ValidateEnvelope; internal/engine/mock.go: Mock, which Built is about
--   Evm         internal/evm/forwarder.go: Receipts has makeReceipt, executeMock and VerifyReceipt
--   Node        internal/node/node.go: State has Node, Competition has validateCompetition,
--               Certificate has validateResultCertificate and validateResultCommitment, Validation
--               has validateBlock; Contest, Attested, Proved, Settled and Accepted take what they
--               accept apart; internal/node/network.go: Collect has collectTickets, which
--               Plurality, Voters and Elected are about, Proposal has the block of Propose, which
--               ProofMap, Reordered and Proposed are about
--   Tests       concrete runs, under an instance of Crypto
--
-- Conventions. Text and byte slices are lists of bytes. A uint64 is a natural number, and the
-- code's additions wrap by u64. A Go map is an association list; where the code ranges over one,
-- the result of the model is the one for the order of the list. A method that changes its receiver
-- returns the new state with its result; a mutex makes a call one step. A block validator is a
-- function that each call brings along, since the node's own validator depends on state of the
-- node. What the node takes from outside is an instance of Environment: time.Parse, the time,
-- json.Unmarshal of a proof, strings.EqualFold and the execution engine's answer; the runner's
-- answer is a field of Node. gnark is an instance of Gnark, and json.Unmarshal and
-- strings.EqualFold of the mock engine are one of Json. A Go map whose values are all true is the
-- list of its keys. What the calls of the operating system return, and what a failed write left
-- in the temporary file, are arguments of Put and Get.
--
-- Fuel. Mine loops on fuel, and a round for each nonce and one more are enough. The loops over a
-- Merkle level take the number of nodes for fuel: it falls in each round while more than one is
-- left. sampleUnique draws until it has enough different indexes, which no bound on the draws
-- guarantees: its fuel is an argument, also of validateCompetition and validateBlock, and running
-- out is an error of the model's own. So is a slice beyond the length of a page's payload, where
-- Go panics (unless the capacity is larger).
--
-- Not modelled: HTTP, files other than objects, command lines, goroutines, the JSON-RPC clients, and
-- the gnark library; of the node, the calls that RunRound and Propose make of other nodes, and OnQC.
pub mod Prelude
pub mod Go
pub mod Protocol
pub mod HotStuff
pub mod AiPow
pub mod AiSeal
pub mod Dag
pub mod Zkml
pub mod Storage
pub mod Engine
pub mod Evm
pub mod Node
pub mod Tests
