-- ===== src/Node/Competition.antt =====
-- internal/node/node.go: validateCompetition, with VerifyBytes of internal/aiseal/verify.go. The
-- fuel is that of the loops that draw samples.
use ai_po_w_unified_dag.Prelude.{
  ℕ, List, [], ◌∷◌, ◌||◌, not, none, some, Bytes, Result, ok, err, ◌>>=◌, ◌>>◌, fail_if,
  if◌then◌else◌, length, lookup, insert, contains, ◌/=◌, bytes_eq, nat_eq,
}
use ai_po_w_unified_dag.Prelude.Results.{map_err}
use ai_po_w_unified_dag.Prelude.Ints.{pos, is_nonpositive, ltb_int}
use ai_po_w_unified_dag.Protocol.{
  AiJob, AiResult, PowTicket, AiProofBundle, Crypto, hash_json, hash_bytes, ticket_signing_bytes,
}
use ai_po_w_unified_dag.Protocol.Primitives.{result}
use ai_po_w_unified_dag.HotStuff.Validators.{public_key}
use ai_po_w_unified_dag.AiPow.Tickets.{verify, select_winner}
use ai_po_w_unified_dag.AiSeal.Types.{Manifest, Proof, Limits, VerificationResult, default_limits}
use ai_po_w_unified_dag.AiSeal.Verify.{ExpectedChallenge, verify_proof, verify_expected}
use ai_po_w_unified_dag.Node.State.{
  Node, Environment, Error, equal_hash, duplicate_proof, proof_count, unexpected_proofs,
  duplicate_ticket, not_a_validator, challenge_mismatch, result_hash_mismatch, policy_mismatch,
  missing_proof, content_mismatch, seal_too_large, seal_not_json, ticket_binding, dummy_mismatch,
  bad_signature, seal_rejected, ticket_rejected,
}

-- The loop over the proofs; the result is the map `proofByMiner`.
unfoldable pub proofs_by_miner :
    List AiProofBundle → List (Bytes × AiProofBundle) → Result Error (List (Bytes × AiProofBundle))
proofs_by_miner [] by_miner = ok by_miner
proofs_by_miner (proof ∷ proofs) by_miner =
    let rest = proofs_by_miner proofs (insert proof.miner_id proof by_miner) in
    elim (lookup proof.miner_id by_miner) [ some old ↦ err duplicate_proof | none ↦ rest ]

-- The round that tickets are for.
pub record Round : Type 0 where
  pub height : ℕ
  pub parent_hash : Bytes
  pub job : AiJob
  pub result : AiResult

-- The number of proofs that a node asks for.
unfoldable pub check_proof_count :
    Node → List PowTicket → List AiProofBundle → Result Error (Unit {0})
check_proof_count n tickets proofs = elim n.ai_seal_manifest [
  | none ↦ fail_if (length proofs /= 0) unexpected_proofs
  | some m ↦ fail_if (length proofs /= length tickets) proof_count
]

module _ ⦃v : Environment⦄ ⦃c : Crypto⦄ where
  -- VerifyBytes
  unfoldable pub verify_bytes :
      ℕ → Manifest → Bytes → Bytes → Limits → Result Error (VerificationResult × Proof)
  verify_bytes fuel m proof_bytes target given = do
    let limits = if is_nonpositive given.max_proof_bytes then default_limits else given
    fail_if (ltb_int limits.max_proof_bytes (pos (length proof_bytes))) seal_too_large
    elim (v.unmarshal_proof proof_bytes) [
      | none ↦ err seal_not_json
      | some proof ↦ do
        verification ← map_err seal_rejected (verify_proof fuel m proof target limits)
        ok (verification, proof)
    ]

  abbrev pub challenge_for : Node → Round → PowTicket → ExpectedChallenge
  challenge_for n round ticket = record {
    block_hash = round.parent_hash;
    miner = ticket.miner_id;
    epoch = round.height;
    manifest_root = n.manifest_root;
    min_pow_samples = n.min_pow_samples;
    min_tensor_samples = n.min_tensor_samples;
  }

  -- What is checked of the AISeal proof in a bundle.
  unfoldable pub check_bundle :
      ℕ → Node → Round → Manifest → PowTicket → AiProofBundle → Result Error (Unit {0})
  check_bundle fuel n round m ticket bundle = do
    fail_if
        (bundle.content_hash /= hash_bytes bundle.proof
          || not (equal_hash bundle.proof_hash ticket.ai_proof_hash))
        content_mismatch
    (verification, proof) ← verify_bytes fuel m bundle.proof n.ai_seal_target default_limits
    map_err seal_rejected (verify_expected proof verification (challenge_for n round ticket))
    fail_if
        (not (equal_hash verification.proof_hash ticket.ai_proof_hash)
          || not (equal_hash verification.ai_digest ticket.ai_digest))
        ticket_binding

  -- The proof that a ticket is sealed with, or the digests of a node without a manifest.
  unfoldable pub check_sealed :
      ℕ → Node → Round → List (Bytes × AiProofBundle) → PowTicket → Result Error (Unit {0})
  check_sealed fuel n round by_miner ticket = elim n.ai_seal_manifest [
    | none ↦
        fail_if
          (ticket.ai_digest /= round.result.ai_digest
            || ticket.ai_proof_hash /= round.result.ai_digest)
          dummy_mismatch
    | some m ↦ elim (lookup ticket.miner_id by_miner) [
      | none ↦ err missing_proof
      | some bundle ↦ check_bundle fuel n round m ticket bundle
    ]
  ]

  unfoldable pub check_ticket_signature : Bytes → PowTicket → Result Error (Unit {0})
  check_ticket_signature key ticket = elim (c.base64_decode ticket.signature) [
    | none ↦ err bad_signature
    | some sig ↦
        fail_if (not (c.ed25519_verify key (ticket_signing_bytes ticket) sig)) bad_signature
  ]

  -- What is checked of a ticket whose miner has a public key.
  unfoldable pub check_ticket :
      ℕ → Node → Round → List (Bytes × AiProofBundle) → PowTicket → Bytes → Result Error (Unit {0})
  check_ticket fuel n round by_miner ticket key = do
    fail_if
        (ticket.height /= round.height
          || ticket.parent_hash /= round.parent_hash
          || ticket.job_id /= round.job.id)
        challenge_mismatch
    fail_if (ticket.result_hash /= hash_json (result round.result)) result_hash_mismatch
    fail_if (ticket.difficulty /= n.difficulty || ticket.manifest_root /= n.manifest_root)
        policy_mismatch
    check_sealed fuel n round by_miner ticket
    map_err ticket_rejected (verify ticket)
    check_ticket_signature key ticket

  -- The loop over the tickets; `seen` is its map.
  unfoldable pub check_tickets :
      ℕ
      → Node
      → Round
      → List (Bytes × AiProofBundle)
      → List Bytes
      → List PowTicket
      → Result Error (Unit {0})
  check_tickets fuel n round by_miner seen [] = ok tt
  check_tickets fuel n round by_miner seen (ticket ∷ tickets) =
      let rest = check_tickets fuel n round by_miner (ticket.miner_id ∷ seen) tickets in
      if contains seen ticket.miner_id
      then err duplicate_ticket
      else elim (public_key n.validators ticket.miner_id) [
        | none ↦ err not_a_validator
        | some key ↦ (check_ticket fuel n round by_miner ticket key >> rest)
      ]

  unfoldable pub validate_competition :
      ℕ → Node → Round → List PowTicket → List AiProofBundle → Result Error PowTicket
  validate_competition fuel n round tickets proofs = do
    by_miner ← proofs_by_miner proofs []
    check_proof_count n tickets proofs
    check_tickets fuel n round by_miner [] tickets
    map_err ticket_rejected (select_winner tickets)
