-- ===== src/Protocol/Types.antt =====
-- internal/protocol/types.go: the message types. A Go slice is a list: a nil slice and an empty one
-- are the same value here. `json.RawMessage` and `[]byte` are bytes. A pointer that may be nil is an
-- option.
use ai_po_w_unified_dag.Prelude.{
  ℕ, List, Bool, true, false, Option, Bytes, ◌≡◌, ◌↔◌, eq_bytes, eq_bytes_iff, Eq, arith,
}

pub record AiJob : Type 0 where
  pub id : Bytes
  pub model : Bytes
  pub prompt : Bytes
  pub created_at : Bytes

pub record AiResult : Type 0 where
  pub job_id : Bytes
  pub model_hash : Bytes
  pub input_hash : Bytes
  pub output : Bytes
  pub output_hash : Bytes
  pub ai_digest : Bytes
  pub proof_scheme : Bytes

pub record EvmRequest : Type 0 where
  pub method : Bytes
  pub params : Bytes

pub record EvmReceipt : Type 0 where
  pub method : Bytes
  pub request_hash : Bytes
  pub response : Bytes
  pub response_hash : Bytes
  pub state_root : Bytes
  pub upstream : Bytes
  pub mock : Bool

pub record ExecutionPayloadEnvelope : Type 0 where
  pub fork : Bytes
  pub payload : Bytes
  pub block_hash : Bytes
  pub parent_hash : Bytes
  pub state_root : Bytes
  pub block_number : Bytes
  pub timestamp : Bytes
  pub parent_beacon_block_root : Bytes
  pub expected_blob_versioned_hashes : List Bytes
  pub execution_requests : List Bytes
  pub block_value : Bytes

pub record PowTicket : Type 0 where
  pub height : ℕ  -- uint64
  pub parent_hash : Bytes
  pub job_id : Bytes
  pub result_hash : Bytes
  pub ai_digest : Bytes
  pub miner_id : Bytes
  pub nonce : ℕ  -- uint64
  pub difficulty : ℕ  -- uint8
  pub work_hash : Bytes
  pub signature : Bytes
  pub manifest_root : Bytes
  pub ai_proof_hash : Bytes
  pub zkml_proof_hash : Bytes

pub record AiProofBundle : Type 0 where
  pub miner_id : Bytes
  pub proof_hash : Bytes
  pub content_hash : Bytes
  pub proof : Bytes

pub record ZkmlProofBundle : Type 0 where
  pub worker_id : Bytes
  pub scheme : Bytes
  pub circuit_id : Bytes
  pub model_commitment : Bytes
  pub input_commitment : Bytes
  pub output : Bytes
  pub proof : Bytes
  pub proof_hash : Bytes

pub record InferenceAttestation : Type 0 where
  pub worker_id : Bytes
  pub height : ℕ  -- uint64
  pub parent_hash : Bytes
  pub job_id : Bytes
  pub result_hash : Bytes
  pub model_hash : Bytes
  pub input_hash : Bytes
  pub output_hash : Bytes
  pub zkml_proof_hash : Bytes
  pub signature : Bytes

pub record ResultCertificate : Type 0 where
  pub result_hash : Bytes
  pub attestations : List InferenceAttestation

pub record BlockHeader : Type 0 where
  pub version : ℕ  -- uint32
  pub height : ℕ  -- uint64
  pub parent_hash : Bytes
  pub proposer_id : Bytes
  pub timestamp : Bytes
  pub ai_receipt_root : Bytes
  pub evm_state_root : Bytes
  pub evm_receipt_root : Bytes
  pub execution_hash : Bytes
  pub tickets_root : Bytes
  pub ai_proofs_root : Bytes
  pub result_qc_root : Bytes
  pub zkml_proofs_root : Bytes

pub record Block : Type 0 where
  pub header : BlockHeader
  pub job : AiJob
  pub result : AiResult
  pub evm_request : EvmRequest
  pub evm : EvmReceipt
  pub execution : ExecutionPayloadEnvelope
  pub winner : PowTicket
  pub tickets : List PowTicket
  pub ai_proofs : List AiProofBundle
  pub result_qc : ResultCertificate
  pub zkml_proofs : List ZkmlProofBundle

-- `type Phase string`: the three phases, and any other text that a message may carry.
pub data Phase : Type 0 where
  prepare precommit commit : Phase
  other : Bytes → Phase

unfoldable pub phase_beq : Phase → Phase → Bool
phase_beq prepare prepare = true
phase_beq precommit precommit = true
phase_beq commit commit = true
phase_beq (other a) (other b) = eq_bytes a b
phase_beq _ _ = false

pub phase_beq_iff : (a b : Phase) → (phase_beq a b ≡ true) ↔ (a ≡ b)
unfolding phase_beq
phase_beq_iff (other a) (other b) = ground (arith, eq_bytes_iff a b)
phase_beq_iff _ _ = ground arith

instance abbrev pub phase_eq : Eq Phase
phase_eq = record { same = phase_beq; same_iff = phase_beq_iff }

pub record Vote : Type 0 where
  pub phase : Phase
  pub height : ℕ  -- uint64
  pub block_hash : Bytes
  pub voter_id : Bytes
  pub signature : Bytes

pub record QuorumCertificate : Type 0 where
  pub phase : Phase
  pub height : ℕ  -- uint64
  pub block_hash : Bytes
  pub votes : List Vote

pub record MiningRequest : Type 0 where
  pub height : ℕ  -- uint64
  pub parent_hash : Bytes
  pub job : AiJob

pub record MiningResponse : Type 0 where
  pub ticket : PowTicket
  pub result : AiResult
  pub attestation : InferenceAttestation
  pub ai_proof : Option AiProofBundle
  pub zkml_proof : Option ZkmlProofBundle

pub record ProposeRequest : Type 0 where
  pub job : AiJob
  pub result : AiResult
  pub evm : EvmRequest
  pub tickets : List PowTicket
  pub ai_proofs : List AiProofBundle
  pub result_qc : ResultCertificate
  pub zkml_proofs : List ZkmlProofBundle

pub record RoundRequest : Type 0 where
  pub job : AiJob
  pub evm : EvmRequest

pub record RoundResponse : Type 0 where
  pub block : Block
  pub block_hash : Bytes
  pub commit_qc : QuorumCertificate

pub record Status : Type 0 where
  pub node_id : Bytes
  pub height : ℕ  -- uint64
  pub tip_hash : Bytes
  pub execution_head : Bytes
  pub validator_num : ℕ  -- int
  pub quorum : ℕ  -- int
