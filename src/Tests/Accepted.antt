-- ===== src/Tests/Accepted.antt =====
-- A block that a node accepts: Propose builds it, of tickets and attestations of three validators.
use ai_po_w_unified_dag.Node.Accepted.{validate_block-IsValid}
use ai_po_w_unified_dag.Tests.Proofs.{trusting}
use ai_po_w_unified_dag.Node.Certificate.{
  validate_result_certificate, check_counts, check_zkml_count, proofs_by_worker, tickets_by_worker,
  check_attestations, check_worker, check_attestation, check_zkml, check_attestation_signature,
}
use ai_po_w_unified_dag.Node.Settled.{IsValidHash, IsSoundNode}
use ai_po_w_unified_dag.Prelude.{
  refl, ◌≡◌, [], ◌∷◌, Bytes, ok, eq_bytes, codes, lookup, contains, sort_slice, insert_sorted,
  lt_bytes, List, insert,
}
use ai_po_w_unified_dag.Go.Hex.{encode_to_string, decode_string, from_hex_char, hex_digit}
use ai_po_w_unified_dag.Go.Text.{
  trim_space, trim_while, leading_space, trailing_space, is_ascii_space, is_wide_space,
  trim_prefix_2,
}
use ai_po_w_unified_dag.Protocol.{
  AiJob, AiResult, EvmRequest, Block, PowTicket, InferenceAttestation, ExecutionPayloadEnvelope,
  ProposeRequest, genesis_hash, hash_json, hash_bytes, validate_ai_job, job_id, tickets_root,
  block_hash, ai_proofs_root, result_qc_root, zkml_proofs_root,
}
use ai_po_w_unified_dag.HotStuff.Validators.{public_key}
use ai_po_w_unified_dag.AiPow.Difficulty.{meets_difficulty, strip_0x, leading_zeros}
use ai_po_w_unified_dag.AiPow.Tickets.{
  calculate_work_hash, verify, verify_all, select_winner, winner_less,
}
use ai_po_w_unified_dag.Evm.Receipts.{
  normalize_request, make_receipt, state_root, check_receipt, verify_receipt, execute_mock,
}
use ai_po_w_unified_dag.Engine.Quantity.{write_hex, parse_quantity, parse_uint_16, read_hex}
use ai_po_w_unified_dag.Engine.Envelope.{
  validate_envelope, is_hash_32, all_hex, all_hashes, zero_hash, fork_osaka, fork_amsterdam,
}
use ai_po_w_unified_dag.Node.State.{after, format_unix, Node}
use ai_po_w_unified_dag.Node.Competition.{
  validate_competition, proofs_by_miner, check_proof_count, check_tickets, check_ticket,
  check_sealed, check_ticket_signature,
}
use ai_po_w_unified_dag.Node.Validation.{
  round_of, check_header, check_result, read_timestamp, validate_block, check_winner,
  check_execution, check_roots, check_contest,
}
use ai_po_w_unified_dag.Node.Proposal.{build_block, by_miner, by_worker}
use ai_po_w_unified_dag.Tests.Blocks.{
  signing, outside, plain_node, entry, hash_of_nothing, demo_attestation,
}

abbrev good_job : AiJob
good_job = record { id = hash_of_nothing; model = 2 ∷ []; prompt = 3 ∷ []; created_at = [] }

abbrev good_result : AiResult
good_result = record {
  job_id = hash_of_nothing;
  model_hash = [];
  input_hash = [];
  output = 5 ∷ [];
  output_hash = [];
  ai_digest = 4 ∷ [];
  proof_scheme = [];
}

abbrev good_ticket : Bytes → PowTicket
good_ticket miner = record entry {
  miner_id = miner;
  job_id = hash_of_nothing;
  ai_digest = 4 ∷ [];
  ai_proof_hash = 4 ∷ [];
}

abbrev good_attestation : Bytes → InferenceAttestation
good_attestation worker = record demo_attestation {
  worker_id = worker;
  parent_hash = genesis_hash;
  job_id = hash_of_nothing;
  result_hash = hash_of_nothing;
}

abbrev good_request : EvmRequest
good_request = record { method = codes "eth_call"; params = codes "[]" }

abbrev good_payload : ExecutionPayloadEnvelope
good_payload = record {
  fork = fork_osaka;
  payload = 1 ∷ [];
  block_hash = zero_hash;
  parent_hash = zero_hash;
  state_root = zero_hash;
  block_number = codes "0x1";
  timestamp = codes "0x1";
  parent_beacon_block_root = zero_hash;
  expected_blob_versioned_hashes = [];
  execution_requests = [];
  block_value = [];
}

abbrev three : List Bytes
three = (99 ∷ []) ∷ (97 ∷ []) ∷ (98 ∷ []) ∷ []

abbrev good_proposal : ProposeRequest
good_proposal = record {
  job = good_job;
  result = good_result;
  evm = good_request;
  tickets = good_ticket (99 ∷ []) ∷ good_ticket (97 ∷ []) ∷ good_ticket (98 ∷ []) ∷ [];
  ai_proofs = [];
  result_qc = record {
    result_hash = hash_of_nothing;
    attestations =
        good_attestation (98 ∷ []) ∷ good_attestation (97 ∷ []) ∷ good_attestation (99 ∷ []) ∷ [];
  };
  zkml_proofs = [];
}

abbrev good_block : Block
good_block =
    build_block ⦃c = signing⦄ plain_node 0 genesis_hash [] good_proposal (good_ticket (97 ∷ []))
      (execute_mock ⦃c = signing⦄ genesis_hash good_request) good_payload

header_demo : check_header ⦃c = signing⦄ plain_node good_block ≡ ok tt
unfolding check_header check_result read_timestamp after format_unix validate_ai_job job_id
    verify_receipt check_receipt normalize_request make_receipt execute_mock state_root trim_space
    trim_while leading_space trailing_space is_ascii_space is_wide_space validate_envelope
    is_hash_32 all_hex all_hashes zero_hash fork_osaka fork_amsterdam parse_quantity parse_uint_16
    read_hex write_hex trim_prefix_2 from_hex_char hex_digit build_block eq_bytes codes hash_json
    hash_bytes encode_to_string genesis_hash
header_demo = refl

-- The node after it asked the execution engine.
abbrev executed : Node
executed = record plain_node { validated_execution = zero_hash ∷ [] }

competition_passes :
    validate_competition ⦃c = signing⦄ 0 executed
      (round_of good_block)
      good_block.tickets
      good_block.ai_proofs
    ≡ ok (good_ticket (97 ∷ []))
unfolding validate_competition proofs_by_miner check_proof_count check_tickets check_ticket
    check_sealed check_ticket_signature public_key lookup contains eq_bytes calculate_work_hash
    verify verify_all select_winner winner_less sort_slice insert_sorted lt_bytes meets_difficulty
    strip_0x decode_string from_hex_char leading_zeros hash_json hash_bytes encode_to_string
    genesis_hash codes build_block by_miner hex_digit
competition_passes = refl

roots_pass : check_roots ⦃c = signing⦄ executed good_block ≡ ok tt
unfolding check_roots build_block tickets_root ai_proofs_root result_qc_root zkml_proofs_root
    sort_slice insert_sorted eq_bytes hash_json hash_bytes encode_to_string hex_digit by_miner
    by_worker lt_bytes
roots_pass = refl

winner_passes : check_winner ⦃c = signing⦄ good_block (good_ticket (97 ∷ [])) ≡ ok tt
unfolding check_winner build_block eq_bytes hash_json hash_bytes encode_to_string
winner_passes = refl

certificate_passes :
    validate_result_certificate ⦃g = trusting⦄ ⦃c = signing⦄ executed
      (round_of good_block)
      good_block.tickets
      good_block.result_qc
      good_block.zkml_proofs
    ≡ (executed, ok tt)
unfolding validate_result_certificate check_counts check_zkml_count proofs_by_worker
    tickets_by_worker check_attestations check_worker check_attestation check_zkml
    check_attestation_signature public_key lookup insert contains eq_bytes sort_slice insert_sorted
    lt_bytes by_miner by_worker build_block hash_json hash_bytes encode_to_string genesis_hash codes
certificate_passes = refl

execution_passes : check_execution ⦃c = signing⦄ plain_node good_block ≡ (executed, ok tt)
unfolding check_execution contains build_block
execution_passes = refl

contest_passes : (check_contest ⦃g = trusting⦄ ⦃c = signing⦄ 0 executed good_block).1 ≡ ok tt
unfolding check_contest
contest_passes =
    rw (roots_pass, check_contest)
      (rw competition_passes (rw certificate_passes (rw winner_passes refl)))

accepted_demo : (validate_block ⦃g = trusting⦄ ⦃c = signing⦄ 0 plain_node good_block).1 ≡ ok tt
unfolding validate_block contains
accepted_demo = rw (header_demo, validate_block) (rw execution_passes contest_passes)

plain-IsSoundNode : IsSoundNode ⦃g = trusting⦄ ⦃c = signing⦄ 0 plain_node
plain-IsSoundNode = record { blocks = tt; zkml = λ ver given. cc }

validate_block-IsValid_example :
    IsSoundNode ⦃g = trusting⦄ ⦃c = signing⦄ 0
      (validate_block ⦃g = trusting⦄ ⦃c = signing⦄ 0 plain_node good_block).0
    × ((validate_block ⦃g = trusting⦄ ⦃c = signing⦄ 0 plain_node good_block).1 ≡ ok tt
        → IsValidHash ⦃g = trusting⦄ ⦃c = signing⦄ 0 plain_node
            (block_hash ⦃c = signing⦄ good_block))
validate_block-IsValid_example =
    validate_block-IsValid ⦃g = trusting⦄ ⦃c = signing⦄ 0 plain_node good_block plain-IsSoundNode

-- So the theorem says of this block that it is valid.
good-IsValidHash :
    IsValidHash ⦃g = trusting⦄ ⦃c = signing⦄ 0 plain_node (block_hash ⦃c = signing⦄ good_block)
good-IsValidHash =
    (validate_block-IsValid ⦃g = trusting⦄ ⦃c = signing⦄ 0 plain_node good_block
        plain-IsSoundNode).1
      accepted_demo
