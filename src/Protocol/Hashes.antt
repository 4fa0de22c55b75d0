-- ===== src/Protocol/Hashes.antt =====
-- internal/protocol/types.go: HashBytes, HashJSON, the roots of a block, and the bytes that votes,
-- tickets and attestations sign.
use ai_po_w_unified_dag.Prelude.{
  ℕ, ◌≢◌, List, [], ◌∷◌, Bool, Bytes, codes, lt_bytes, ◌==◌, bytes_eq, if◌then◌else◌, sort_slice,
}
use ai_po_w_unified_dag.Go.Hex.{encode_to_string}
use ai_po_w_unified_dag.Protocol.Types.{
  AiJob, PowTicket, AiProofBundle, ZkmlProofBundle, InferenceAttestation, ResultCertificate, Block,
  Phase,
}
use ai_po_w_unified_dag.Protocol.Primitives.{
  Value, job_id_fields, block, tickets, ai_proofs, zkml_proofs, certificate, vote_fields,
  inference_fields, Crypto,
}

abbrev pub protocol_version : ℕ
protocol_version = 2

-- The hash of no block, the parent of the first one.
unfoldable pub genesis_hash : Bytes
genesis_hash = codes "0x4a1ae0a4b9f7a0c663e89b9df38b1bb2148b0977eacff33a4a9a320c4ca63b6a"

unfoldable pub ticket_less : PowTicket → PowTicket → Bool
ticket_less a b =
    if a.miner_id == b.miner_id
    then lt_bytes a.work_hash b.work_hash
    else lt_bytes a.miner_id b.miner_id

unfoldable pub ai_proof_less : AiProofBundle → AiProofBundle → Bool
ai_proof_less a b =
    if a.miner_id == b.miner_id
    then lt_bytes a.content_hash b.content_hash
    else lt_bytes a.miner_id b.miner_id

unfoldable pub zkml_proof_less : ZkmlProofBundle → ZkmlProofBundle → Bool
zkml_proof_less a b =
    if a.worker_id == b.worker_id
    then lt_bytes a.proof_hash b.proof_hash
    else lt_bytes a.worker_id b.worker_id

unfoldable pub attestation_less : InferenceAttestation → InferenceAttestation → Bool
attestation_less a b = lt_bytes a.worker_id b.worker_id

unfoldable pub ticket_signing_bytes : PowTicket → Bytes
ticket_signing_bytes t = t.work_hash

module _ ⦃c : Crypto⦄ where
  unfoldable pub hash_bytes : Bytes → Bytes
  hash_bytes b = 48 ∷ 120 ∷ encode_to_string (c.sha256 b)

  unfoldable pub hash_json : Value → Bytes
  hash_json v = hash_bytes (c.marshal v)

  unfoldable pub job_id : AiJob → Bytes
  job_id job = hash_json (job_id_fields job.model job.prompt job.created_at)

  -- NewAIJob, with the time as an argument
  unfoldable pub new_ai_job : Bytes → Bytes → Bytes → AiJob
  new_ai_job model prompt created =
      let j : AiJob = record { id = []; model = model; prompt = prompt; created_at = created } in
      record j { id = job_id j }

  -- ValidateAIJob: whether it returns no error
  unfoldable pub validate_ai_job : AiJob → Bool
  validate_ai_job job = job.id == job_id job

  unfoldable pub block_hash : Block → Bytes
  block_hash b = hash_json (block b)

  unfoldable pub tickets_root : List PowTicket → Bytes
  tickets_root ts = hash_json (tickets (sort_slice ticket_less ts))

  unfoldable pub ai_proofs_root : List AiProofBundle → Bytes
  ai_proofs_root ps = hash_json (ai_proofs (sort_slice ai_proof_less ps))

  unfoldable pub zkml_proofs_root : List ZkmlProofBundle → Bytes
  zkml_proofs_root ps = hash_json (zkml_proofs (sort_slice zkml_proof_less ps))

  unfoldable pub result_qc_root : ResultCertificate → Bytes
  result_qc_root r =
      hash_json
        (certificate (record r { attestations = sort_slice attestation_less r.attestations }))

  unfoldable pub vote_signing_bytes : Phase → ℕ → Bytes → Bytes
  vote_signing_bytes phase height hash =
      c.marshal (vote_fields (codes "AIDCHAIN_HOTSTUFF_VOTE_V1") phase height hash)

  -- The struct holds every field but the signature, which is blanked here.
  unfoldable pub inference_signing_bytes : InferenceAttestation → Bytes
  inference_signing_bytes a =
      c.marshal
        (inference_fields (codes "AIDCHAIN_INFERENCE_ATTESTATION_V1") (record a { signature = [] }))

  -- A hash is never the empty string.
  pub block_hash-ne-nil : (b : Block) → block_hash b ≢ []
  unfolding block_hash hash_json hash_bytes
  block_hash-ne-nil b h = cc
