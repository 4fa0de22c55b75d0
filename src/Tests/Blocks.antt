-- ===== src/Tests/Blocks.antt =====
-- A competition with one ticket, and the checks of a block by a node.
use ai_po_w_unified_dag.Prelude.{
  List, refl, ◌≡◌, All, true, [], ◌∷◌, Bytes, none, some, ok, lookup, contains, distinct, eq_bytes,
  codes, sort_slice, insert_sorted, replicate, bytes_eq, arith, lt_bytes,
}
use ai_po_w_unified_dag.Prelude.Ints.{pos}
use ai_po_w_unified_dag.Go.Hex.{encode_to_string, decode_string, from_hex_char}
use ai_po_w_unified_dag.Protocol.{genesis_hash, Crypto, PowTicket, hash_json, hash_bytes, Block}
use ai_po_w_unified_dag.HotStuff.Validators.{public_key}
use ai_po_w_unified_dag.AiPow.Difficulty.{meets_difficulty, strip_0x, leading_zeros}
use ai_po_w_unified_dag.AiPow.Tickets.{
  calculate_work_hash, verify, verify_all, select_winner, winner_less,
}
use ai_po_w_unified_dag.AiPow.Winner.{miners, IsLeast}
use ai_po_w_unified_dag.Node.State.{Node, Environment}
use ai_po_w_unified_dag.Node.Competition.{
  Round, validate_competition, proofs_by_miner, check_proof_count, check_tickets, check_ticket,
  check_sealed, check_ticket_signature,
}
use ai_po_w_unified_dag.Node.Certificate.{validate_result_certificate}
use ai_po_w_unified_dag.Node.Validation.{round_of}
use ai_po_w_unified_dag.Node.Contest.{IsTicketFor, validate_competition-ok}
use ai_po_w_unified_dag.Node.Attested.{IsCache}
use ai_po_w_unified_dag.Node.Proved.{IsCertified, validate_result_certificate-IsCertified}
use ai_po_w_unified_dag.Node.Collect.{Answer}
use ai_po_w_unified_dag.Node.Validation.{check_roots, check_winner}
use ai_po_w_unified_dag.Node.Proposal.{build_block}
use ai_po_w_unified_dag.Node.Proposed.{build_block-passes}
use ai_po_w_unified_dag.Protocol.{MiningResponse, InferenceAttestation, ProposeRequest}
use ai_po_w_unified_dag.Tests.Demo.{demo, demo_set, demo_block, demo_ticket}
use ai_po_w_unified_dag.Tests.Proofs.{trusting, checker}

-- Every signature verifies.
abbrev pub signing : Crypto
signing = record demo { ed25519_verify = λ public message signature. true }

instance abbrev pub outside : Environment
outside = record {
  parse_time = λ text. some (record { unix = pos 1; nanos = 0 });
  soon = record { unix = pos 2; nanos = 0 };
  unmarshal_proof = λ bytes. none;
  equal_fold = eq_bytes;
  execution_accepts = λ e. true;
}

abbrev pub plain_node : Node
plain_node = record {
  id = 97 ∷ [];
  validators = demo_set;
  difficulty = 0;
  manifest_root = [];
  ai_seal_manifest = none;
  ai_seal_target = [];
  min_pow_samples = pos 0;
  min_tensor_samples = pos 0;
  runner_accepts = λ job r. true;
  zkml_verifier = none;
  min_zkml_proofs = 0;
  validated_execution = [];
  validated_blocks = [];
  validated_zkml = [];
}

abbrev pub zkml_node : Node
zkml_node = record plain_node { zkml_verifier = some checker; min_zkml_proofs = 3 }

abbrev demo_round : Round
demo_round = round_of demo_block

-- The hash of a value that the demonstration encodes as no bytes.
abbrev pub hash_of_nothing : Bytes
hash_of_nothing = 48 ∷ 120 ∷ []

abbrev pub entry : PowTicket
entry = record demo_ticket {
  height = demo_block.header.height;
  parent_hash = demo_block.header.parent_hash;
  job_id = [];
  result_hash = hash_of_nothing;
  work_hash = 48 ∷ 120 ∷ encode_to_string (replicate 32 128);
}

competition_demo :
    validate_competition ⦃c = signing⦄ 0 plain_node demo_round (entry ∷ []) [] ≡ ok entry
unfolding validate_competition proofs_by_miner check_proof_count check_tickets check_ticket
    check_sealed check_ticket_signature public_key lookup contains eq_bytes calculate_work_hash
    verify verify_all select_winner sort_slice insert_sorted meets_difficulty strip_0x decode_string
    from_hex_char leading_zeros hash_json hash_bytes encode_to_string genesis_hash codes
competition_demo = refl

validate_competition-ok_example :
    All (IsTicketFor ⦃c = signing⦄ 0 plain_node demo_round) (entry ∷ [])
    × (distinct (miners (entry ∷ [])) ≡ true)
    × IsLeast ⦃c = signing⦄ (entry ∷ []) entry
validate_competition-ok_example =
    validate_competition-ok ⦃c = signing⦄ 0 plain_node demo_round (entry ∷ []) [] competition_demo

empty-IsCache : IsCache ⦃g = trusting⦄ ⦃c = signing⦄ checker zkml_node.validated_zkml
empty-IsCache = tt

validate_result_certificate-IsCertified_example :
    IsCache ⦃g = trusting⦄ ⦃c = signing⦄ checker
      (validate_result_certificate ⦃g = trusting⦄ ⦃c = signing⦄ zkml_node demo_round
        (entry ∷ [])
        demo_block.result_qc
        []).0.validated_zkml
    × ((validate_result_certificate ⦃g = trusting⦄ ⦃c = signing⦄ zkml_node demo_round
            (entry ∷ [])
            demo_block.result_qc
            []).1
          ≡ ok tt
        → IsCertified ⦃g = trusting⦄ ⦃c = signing⦄ zkml_node checker demo_round
            (entry ∷ [])
            demo_block.result_qc)
validate_result_certificate-IsCertified_example =
    validate_result_certificate-IsCertified ⦃g = trusting⦄ ⦃c = signing⦄ zkml_node checker
      demo_round (entry ∷ []) demo_block.result_qc [] refl empty-IsCache

abbrev pub demo_attestation : InferenceAttestation
demo_attestation = record {
  worker_id = 97 ∷ [];
  height = 1;
  parent_hash = [];
  job_id = [];
  result_hash = [];
  model_hash = [];
  input_hash = [];
  output_hash = [];
  zkml_proof_hash = [];
  signature = [];
}

abbrev demo_response : MiningResponse
demo_response = record {
  ticket = entry;
  result = demo_block.result;
  attestation = demo_attestation;
  ai_proof = none;
  zkml_proof = none;
}

-- One miner answers under its name, one under another name, one not at all.
abbrev demo_answers : List Answer
demo_answers = (97 ∷ [], some demo_response) ∷ (98 ∷ [], some demo_response) ∷ (99 ∷ [], none) ∷ []

abbrev pub entry_of : Bytes → PowTicket
entry_of miner = record entry { miner_id = miner }

abbrev demo_proposal : ProposeRequest
demo_proposal = record {
  job = demo_block.job;
  result = demo_block.result;
  evm = demo_block.evm_request;
  tickets = entry_of (99 ∷ []) ∷ entry_of (97 ∷ []) ∷ entry_of (98 ∷ []) ∷ [];
  ai_proofs = [];
  result_qc = demo_block.result_qc;
  zkml_proofs = [];
}

abbrev demo_proposed : Block
demo_proposed =
    build_block ⦃c = signing⦄ plain_node 0 genesis_hash [] demo_proposal entry demo_block.evm
      demo_block.execution

proposed_demo :
    validate_competition ⦃c = signing⦄ 0 zkml_node
      (round_of demo_proposed)
      demo_proposal.tickets
      demo_proposal.ai_proofs
    ≡ ok entry
unfolding validate_competition proofs_by_miner check_proof_count check_tickets check_ticket
    check_sealed check_ticket_signature public_key lookup contains eq_bytes calculate_work_hash
    verify verify_all select_winner sort_slice insert_sorted meets_difficulty strip_0x decode_string
    from_hex_char leading_zeros hash_json hash_bytes encode_to_string genesis_hash codes build_block
    lt_bytes winner_less
proposed_demo = refl

build_block-passes_example :
    (validate_competition ⦃c = signing⦄ 0 zkml_node
        (round_of demo_proposed)
        demo_proposed.tickets
        demo_proposed.ai_proofs
      ≡ ok entry)
    × (check_roots ⦃c = signing⦄ zkml_node demo_proposed ≡ ok tt)
    × (check_winner ⦃c = signing⦄ demo_proposed entry ≡ ok tt)
build_block-passes_example =
    build_block-passes ⦃c = signing⦄ 0 plain_node zkml_node 0 genesis_hash [] demo_proposal entry
      demo_block.evm demo_block.execution proposed_demo (omega arith) refl
