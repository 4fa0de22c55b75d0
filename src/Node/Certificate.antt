-- ===== src/Node/Certificate.antt =====
-- internal/node/node.go: validateResultCertificate and validateResultCommitment. The cache of proofs
-- that are verified goes through the loop over the attestations.
use ai_po_w_unified_dag.Prelude.{
  List, [], ◌∷◌, ◌++◌, ◌||◌, not, none, some, Bytes, Result, ok, err, ◌>>=◌, ◌>>◌, fail_if,
  if◌then◌else◌, length, lookup, insert, contains, ltb, codes, ◌==◌, ◌/=◌, bytes_eq, nat_eq,
}
use ai_po_w_unified_dag.Protocol.{
  AiJob, AiResult, PowTicket, ZkmlProofBundle, InferenceAttestation, ResultCertificate, Crypto,
  hash_json, hash_bytes, inference_signing_bytes,
}
use ai_po_w_unified_dag.Protocol.Primitives.{result, receipt_fields}
use ai_po_w_unified_dag.HotStuff.Validators.{public_key, quorum}
use ai_po_w_unified_dag.Zkml.Circuit.{Gnark}
use ai_po_w_unified_dag.Zkml.Prover.{Proof, Verifier, scheme, verify, statement_for, proof_hash}
use ai_po_w_unified_dag.Node.Competition.{Round}
use ai_po_w_unified_dag.Node.State.{
  Node, Error, not_a_validator, bad_signature, certificate_hash, too_few_attestations,
  attestation_count, duplicate_zkml_proof, unexpected_zkml_proofs, too_few_zkml_proofs,
  zkml_proof_count, duplicate_attestation, no_ticket, attestation_mismatch, zkml_binding,
  unexpected_zkml_commitment, missing_zkml_proof, zkml_hash_mismatch, zkml_statement_mismatch,
  zkml_rejected, input_commitment, output_commitment, digest_mismatch, scheme_mismatch,
}

-- The loop that fills `ticketByWorker`.
unfoldable pub tickets_by_worker :
    List PowTicket → List (Bytes × PowTicket) → List (Bytes × PowTicket)
tickets_by_worker [] by_worker = by_worker
tickets_by_worker (ticket ∷ tickets) by_worker =
    tickets_by_worker tickets (insert ticket.miner_id ticket by_worker)

-- The loop that fills `proofByWorker`.
unfoldable pub proofs_by_worker :
    List ZkmlProofBundle
    → List (Bytes × ZkmlProofBundle)
    → Result Error (List (Bytes × ZkmlProofBundle))
proofs_by_worker [] by_worker = ok by_worker
proofs_by_worker (bundle ∷ bundles) by_worker =
    let rest = proofs_by_worker bundles (insert bundle.worker_id bundle by_worker) in
    elim (lookup bundle.worker_id by_worker) [ some old ↦ err duplicate_zkml_proof | none ↦ rest ]

-- How many zkML proofs a node asks for.
unfoldable pub check_zkml_count :
    Node → ResultCertificate → List ZkmlProofBundle → Result Error (Unit {0})
check_zkml_count n certificate proofs = elim n.zkml_verifier [
  | none ↦ fail_if (length proofs /= 0) unexpected_zkml_proofs
  | some v ↦ do
    fail_if (ltb (length proofs) n.min_zkml_proofs) too_few_zkml_proofs
    fail_if (length proofs /= length certificate.attestations) zkml_proof_count
]

abbrev pub proof_of : ZkmlProofBundle → Proof
proof_of b = record {
  scheme = b.scheme;
  circuit_id = b.circuit_id;
  model_commitment = b.model_commitment;
  input_commitment = b.input_commitment;
  output = b.output;
  proof = b.proof;
}

module _ ⦃c : Crypto⦄ where
  unfoldable pub validate_result_commitment : Node → AiJob → AiResult → Result Error (Unit {0})
  validate_result_commitment n job r = do
    fail_if
        (r.job_id /= job.id
          || r.model_hash /= hash_bytes job.model
          || r.input_hash /= hash_bytes job.prompt)
        input_commitment
    fail_if (r.output == [] || r.output_hash /= hash_bytes r.output) output_commitment
    let want_digest = hash_json (
        receipt_fields (codes "AIDCHAIN_AI_RECEIPT_V1") job.id r.model_hash r.input_hash
          r.output_hash n.manifest_root)
    fail_if (r.ai_digest /= want_digest) digest_mismatch
    elim n.zkml_verifier [
      | none ↦ ok tt
      | some v ↦ fail_if (r.proof_scheme /= scheme) scheme_mismatch
    ]

  unfoldable pub check_attestation_signature :
      Bytes → InferenceAttestation → Result Error (Unit {0})
  check_attestation_signature key a = elim (c.base64_decode a.signature) [
    | none ↦ err bad_signature
    | some sig ↦ fail_if (not (c.ed25519_verify key (inference_signing_bytes a) sig)) bad_signature
  ]

  -- What is checked of an attestation with its validator's key and ticket.
  unfoldable pub check_attestation :
      Round → InferenceAttestation → Bytes → PowTicket → Result Error (Unit {0})
  check_attestation round a key ticket = do
    fail_if
        (a.height /= round.height
          || a.parent_hash /= round.parent_hash
          || a.job_id /= round.job.id
          || a.result_hash /= hash_json (result round.result)
          || a.model_hash /= round.result.model_hash
          || a.input_hash /= round.result.input_hash
          || a.output_hash /= round.result.output_hash)
        attestation_mismatch
    check_attestation_signature key a
    fail_if (ticket.zkml_proof_hash /= a.zkml_proof_hash) zkml_binding

  -- The validator, its ticket, and the rest of what does not need the proof.
  unfoldable pub check_worker :
      Node → Round → List (Bytes × PowTicket) → InferenceAttestation → Result Error (Unit {0})
  check_worker n round by_worker a = elim (public_key n.validators a.worker_id) [
    | none ↦ err not_a_validator
    | some key ↦ elim (lookup a.worker_id by_worker) [
      | none ↦ err no_ticket
      | some ticket ↦ check_attestation round a key ticket
    ]
  ]

module _ ⦃g : Gnark⦄ ⦃c : Crypto⦄ where
  -- The hashes and the statement of a proof.
  unfoldable pub check_statement :
      Round → InferenceAttestation → ZkmlProofBundle → Result Error (Unit {0})
  check_statement round a bundle = do
    let want = statement_for round.job.model round.job.prompt
    fail_if
        (bundle.proof_hash /= proof_hash (proof_of bundle)
          || bundle.proof_hash /= a.zkml_proof_hash)
        zkml_hash_mismatch
    fail_if
        (bundle.model_commitment /= want.model_commitment
          || bundle.input_commitment /= want.input_commitment
          || round.result.output /= codes "zkml-linear-v1:" ++ bundle.output)
        zkml_statement_mismatch

  -- Verify, where the proof is not known yet.
  unfoldable pub check_cached :
      Verifier → List Bytes → ZkmlProofBundle → List Bytes × Result Error (Unit {0})
  check_cached v cache bundle =
      if contains cache bundle.proof_hash
      then (cache, ok tt)
      else elim (verify v (proof_of bundle)) [
        | err e ↦ (cache, err (zkml_rejected e))
        | ok _ ↦ (bundle.proof_hash ∷ cache, ok tt)
      ]

  unfoldable pub check_zkml_proof :
      Verifier
      → Round
      → List (Bytes × ZkmlProofBundle)
      → List Bytes
      → InferenceAttestation
      → List Bytes × Result Error (Unit {0})
  check_zkml_proof v round by_worker cache a = elim (lookup a.worker_id by_worker) [
    | none ↦ (cache, err missing_zkml_proof)
    | some bundle ↦ elim (check_statement round a bundle) [
      | err e ↦ (cache, err e)
      | ok _ ↦ check_cached v cache bundle
    ]
  ]

  unfoldable pub check_zkml :
      Node
      → Round
      → List (Bytes × ZkmlProofBundle)
      → List Bytes
      → InferenceAttestation
      → List Bytes × Result Error (Unit {0})
  check_zkml n round by_worker cache a = elim n.zkml_verifier [
    | none ↦ (cache, fail_if (a.zkml_proof_hash /= []) unexpected_zkml_commitment)
    | some v ↦ check_zkml_proof v round by_worker cache a
  ]

  -- The loop over the attestations; `seen` is its map.
  unfoldable pub check_attestations :
      Node
      → Round
      → List (Bytes × PowTicket)
      → List (Bytes × ZkmlProofBundle)
      → List Bytes
      → List Bytes
      → List InferenceAttestation
      → List Bytes × Result Error (Unit {0})
  check_attestations n round tickets proofs seen cache [] = (cache, ok tt)
  check_attestations n round tickets proofs seen cache (a ∷ others) =
      let (after, reply) = check_zkml n round proofs cache a in
      let rest = check_attestations n round tickets proofs (a.worker_id ∷ seen) after others in
      if contains seen a.worker_id
      then (cache, err duplicate_attestation)
      else elim (check_worker n round tickets a) [
        | err e ↦ (cache, err e)
        | ok _ ↦ elim reply [ err e ↦ (after, err e) | ok _ ↦ rest ]
      ]

  -- The checks before the loop, with the map of the proofs.
  unfoldable pub check_counts :
      Node
      → Round
      → List PowTicket
      → ResultCertificate
      → List ZkmlProofBundle
      → Result Error (List (Bytes × ZkmlProofBundle))
  check_counts n round tickets certificate proofs = do
    fail_if (certificate.result_hash /= hash_json (result round.result)) certificate_hash
    fail_if (ltb (length certificate.attestations) (quorum n.validators)) too_few_attestations
    fail_if (length certificate.attestations /= length tickets) attestation_count
    by_worker ← proofs_by_worker proofs []
    check_zkml_count n certificate proofs
    ok by_worker

  unfoldable pub validate_result_certificate :
      Node
      → Round
      → List PowTicket
      → ResultCertificate
      → List ZkmlProofBundle
      → Node × Result Error (Unit {0})
  validate_result_certificate n round tickets certificate proofs =
      elim (check_counts n round tickets certificate proofs) [
        | err e ↦ (n, err e)
        | ok by_worker ↦
            let (cache, reply) =
              check_attestations n round (tickets_by_worker tickets []) by_worker []
                n.validated_zkml certificate.attestations in
            (record n { validated_zkml = cache }, reply)
      ]
