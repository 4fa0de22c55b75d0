-- ===== src/Node/Validation.antt =====
-- internal/node/node.go: validateBlock, with its caches. A check returns the node that it leaves.
use ai_po_w_unified_dag.Prelude.{
  ℕ, ◌∷◌, ◌||◌, not, none, some, Result, ok, err, ◌>>=◌, ◌>>◌, fail_if, if◌then◌else◌, length,
  contains, ltb, ◌/=◌, bytes_eq, nat_eq,
}
use ai_po_w_unified_dag.Prelude.Results.{map_err}
use ai_po_w_unified_dag.Protocol.{
  Block, PowTicket, Crypto, protocol_version, validate_ai_job, block_hash, hash_json, tickets_root,
  ai_proofs_root, result_qc_root, zkml_proofs_root,
}
use ai_po_w_unified_dag.Protocol.Primitives.{execution, ticket}
use ai_po_w_unified_dag.HotStuff.Validators.{quorum}
use ai_po_w_unified_dag.Zkml.Circuit.{Gnark}
use ai_po_w_unified_dag.Evm.Receipts.{verify_receipt}
use ai_po_w_unified_dag.Engine.Envelope.{validate_envelope}
use ai_po_w_unified_dag.Node.Competition.{Round, validate_competition}
use ai_po_w_unified_dag.Node.Certificate.{validate_result_commitment, validate_result_certificate}
use ai_po_w_unified_dag.Node.State.{
  Node, Environment, Error, Time, after, format_unix, bad_version, bad_job, runner_rejected,
  receipt_root_mismatch, bad_timestamp, timestamp_in_future, evm_rejected, evm_root_mismatch,
  execution_commitment, envelope_rejected, execution_timestamp, execution_rejected,
  tickets_root_mismatch, ai_proofs_root_mismatch, result_qc_root_mismatch,
  zkml_proofs_root_mismatch, too_few_tickets, winner_mismatch, proposer_mismatch,
}

abbrev pub round_of : Block → Round
round_of b = record {
  height = b.header.height;
  parent_hash = b.header.parent_hash;
  job = b.job;
  result = b.result;
}

module _ ⦃v : Environment⦄ ⦃c : Crypto⦄ where
  -- The job and the result, by the runner or by their commitments.
  unfoldable pub check_result : Node → Block → Result Error (Unit {0})
  check_result n b = elim n.zkml_verifier [
    | none ↦ fail_if (not (n.runner_accepts b.job b.result)) runner_rejected
    | some _ ↦ validate_result_commitment n b.job b.result
  ]

  unfoldable pub read_timestamp : Block → Result Error Time
  read_timestamp b = elim (v.parse_time b.header.timestamp) [
    | none ↦ err bad_timestamp
    | some t ↦ if after t v.soon then err timestamp_in_future else ok t
  ]

  -- The checks up to the execution engine.
  unfoldable pub check_header : Node → Block → Result Error (Unit {0})
  check_header n b = do
    fail_if (b.header.version /= protocol_version) bad_version
    fail_if (not (validate_ai_job b.job)) bad_job
    check_result n b
    fail_if (b.header.ai_receipt_root /= b.result.ai_digest) receipt_root_mismatch
    timestamp ← read_timestamp b
    map_err evm_rejected (verify_receipt b.header.parent_hash b.evm_request b.evm)
    fail_if (b.header.evm_receipt_root /= b.evm.state_root) evm_root_mismatch
    fail_if
        (b.header.evm_state_root /= b.execution.state_root
          || b.header.execution_hash /= hash_json (execution b.execution))
        execution_commitment
    map_err envelope_rejected (validate_envelope b.execution)
    fail_if (b.execution.timestamp /= format_unix timestamp.unix) execution_timestamp

  -- Validate of the execution engine, where the payload is not known yet.
  unfoldable pub check_execution : Node → Block → Node × Result Error (Unit {0})
  check_execution n b =
      if contains n.validated_execution b.execution.block_hash
      then (n, ok tt)
      else if v.execution_accepts b.execution
      then (
        record n { validated_execution = b.execution.block_hash ∷ n.validated_execution },
        ok tt,
      )
      else (n, err execution_rejected)

  unfoldable pub check_roots : Node → Block → Result Error (Unit {0})
  check_roots n b = do
    fail_if (b.header.tickets_root /= tickets_root b.tickets) tickets_root_mismatch
    fail_if (b.header.ai_proofs_root /= ai_proofs_root b.ai_proofs) ai_proofs_root_mismatch
    fail_if (b.header.result_qc_root /= result_qc_root b.result_qc) result_qc_root_mismatch
    fail_if (b.header.zkml_proofs_root /= zkml_proofs_root b.zkml_proofs) zkml_proofs_root_mismatch
    fail_if (ltb (length b.tickets) (quorum n.validators)) too_few_tickets

  unfoldable pub check_winner : Block → PowTicket → Result Error (Unit {0})
  check_winner b winner = do
    fail_if (hash_json (ticket winner) /= hash_json (ticket b.winner)) winner_mismatch
    fail_if (winner.miner_id /= b.header.proposer_id) proposer_mismatch

-- `if err := …; err != nil { return err }` where the first step may change the node.
abbrev pub and_then :
    Node × Result Error (Unit {0})
    → (Node → Node × Result Error (Unit {0}))
    → Node × Result Error (Unit {0})
and_then (n, err e) next = (n, err e)
and_then (n, ok u) next = next n

abbrev pub with_result {ℓ} :
    {A : Type ℓ}
    → Node
    → Result Error A
    → (A → Node × Result Error (Unit {0}))
    → Node × Result Error (Unit {0})
with_result n (err e) next = (n, err e)
with_result n (ok a) next = next a

module _ ⦃v : Environment⦄ ⦃g : Gnark⦄ ⦃c : Crypto⦄ where
  -- The checks after the execution engine; a block that passes is remembered.
  unfoldable pub check_contest : ℕ → Node → Block → Node × Result Error (Unit {0})
  check_contest fuel n b = with_result n (check_roots n b) λ _.
      with_result n (validate_competition fuel n (round_of b) b.tickets b.ai_proofs) λ winner.
        and_then (validate_result_certificate n (round_of b) b.tickets b.result_qc b.zkml_proofs)
          λ n'.
            with_result n' (check_winner b winner)
              λ _. (record n' { validated_blocks = block_hash b ∷ n'.validated_blocks }, ok tt)

  unfoldable pub validate_block : ℕ → Node → Block → Node × Result Error (Unit {0})
  validate_block fuel n b =
      if contains n.validated_blocks (block_hash b)
      then (n, ok tt)
      else with_result n (check_header n b)
          λ _. and_then (check_execution n b) λ n'. check_contest fuel n' b
