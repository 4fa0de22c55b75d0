-- ===== src/Tests/Demo.antt =====
-- A concrete instance of what the program takes from outside: texts are hashed to themselves, and
-- a signature counts on the votes for one block at height 1 only.
use ai_po_w_unified_dag.Prelude.{
  ℕ, List, [], ◌∷◌, true, ◌&&◌, none, some, Bytes, if◌then◌else◌, codes, replicate, contains, ◌==◌,
  nat_eq, bytes_eq,
}
use ai_po_w_unified_dag.Protocol.{
  Phase, prepare, precommit, commit, other, Vote, QuorumCertificate, Block, BlockHeader, Crypto,
  AiJob, PowTicket, genesis_hash,
}
use ai_po_w_unified_dag.Protocol.Primitives.{Value, vote_fields, block, work_fields}
use ai_po_w_unified_dag.HotStuff.Validators.{ValidatorSet}
use ai_po_w_unified_dag.HotStuff.Replica.{Replica}
use ai_po_w_unified_dag.HotStuff.History.{Input, proposal, certified}

abbrev pub demo_block_hash : Bytes
demo_block_hash = codes "0x07"

abbrev pub phase_code : Phase → ℕ
phase_code prepare = 1
phase_code precommit = 2
phase_code commit = 3
phase_code (other text) = 0

abbrev pub vote_code : Phase → ℕ → Bytes → Bytes
vote_code phase height hash =
    if height == 1 && hash == demo_block_hash then phase_code phase ∷ [] else 0 ∷ []

-- Every work hash begins with one bit that is set.
abbrev pub demo_marshal : Value → Bytes
demo_marshal (vote_fields domain phase height hash) = vote_code phase height hash
demo_marshal (block b) = 7 ∷ []
demo_marshal (work_fields domain t) = replicate 32 128
demo_marshal _ = []

abbrev pub vote_codes : List Bytes
vote_codes = (1 ∷ []) ∷ (2 ∷ []) ∷ (3 ∷ []) ∷ []

instance abbrev pub demo : Crypto
demo = record {
  marshal = demo_marshal;
  sha256 = λ b. b;
  blake3 = λ b. replicate 32 1;
  ed25519_verify = λ public message signature. contains vote_codes message;
  ed25519_sign = λ private message. message;
  base64_encode = λ b. b;
  base64_decode = λ b. some b;
  json_valid = λ b. true;
  to_lower_unicode = λ b. b;
}

abbrev demo_job : AiJob
demo_job = record { id = []; model = []; prompt = []; created_at = [] }

abbrev pub demo_ticket : PowTicket
demo_ticket = record {
  height = 1;
  parent_hash = 1 ∷ [];
  job_id = 2 ∷ [];
  result_hash = [];
  ai_digest = [];
  miner_id = 97 ∷ [];
  nonce = 0;
  difficulty = 0;
  work_hash = [];
  signature = [];
  manifest_root = [];
  ai_proof_hash = [];
  zkml_proof_hash = [];
}

abbrev demo_header : BlockHeader
demo_header = record {
  version = 2;
  height = 1;
  parent_hash = genesis_hash;
  proposer_id = 97 ∷ [];
  timestamp = [];
  ai_receipt_root = [];
  evm_state_root = [];
  evm_receipt_root = [];
  execution_hash = [];
  tickets_root = [];
  ai_proofs_root = [];
  result_qc_root = [];
  zkml_proofs_root = [];
}

abbrev pub demo_block : Block
demo_block = record {
  header = demo_header;
  job = demo_job;
  result = record {
    job_id = [];
    model_hash = [];
    input_hash = [];
    output = [];
    output_hash = [];
    ai_digest = [];
    proof_scheme = [];
  };
  evm_request = record { method = []; params = [] };
  evm = record {
    method = [];
    request_hash = [];
    response = [];
    response_hash = [];
    state_root = [];
    upstream = [];
    mock = true;
  };
  execution = record {
    fork = [];
    payload = [];
    block_hash = [];
    parent_hash = [];
    state_root = [];
    block_number = [];
    timestamp = [];
    parent_beacon_block_root = [];
    expected_blob_versioned_hashes = [];
    execution_requests = [];
    block_value = [];
  };
  winner = demo_ticket;
  tickets = [];
  ai_proofs = [];
  result_qc = record { result_hash = []; attestations = [] };
  zkml_proofs = [];
}

abbrev pub demo_validators : List (Bytes × Bytes)
demo_validators =
    (97 ∷ [], replicate 32 1)
    ∷ (98 ∷ [], replicate 32 2)
    ∷ (99 ∷ [], replicate 32 3)
    ∷ (100 ∷ [], replicate 32 4)
    ∷ []

abbrev pub demo_set : ValidatorSet
demo_set = record {
  keys = demo_validators;
  ids = (97 ∷ []) ∷ (98 ∷ []) ∷ (99 ∷ []) ∷ (100 ∷ []) ∷ [];
}

abbrev pub demo_vote : Phase → Bytes → Vote
demo_vote phase voter = record {
  phase = phase;
  height = 1;
  block_hash = demo_block_hash;
  voter_id = voter;
  signature = phase_code phase ∷ [];
}

abbrev pub demo_votes : Phase → List Vote
demo_votes phase =
    demo_vote phase (97 ∷ []) ∷ demo_vote phase (98 ∷ []) ∷ demo_vote phase (99 ∷ []) ∷ []

abbrev pub demo_qc : Phase → QuorumCertificate
demo_qc phase = record {
  phase = phase;
  height = 1;
  block_hash = demo_block_hash;
  votes = demo_votes phase;
}

abbrev pub demo_replica : Bytes → Replica
demo_replica id = record {
  id = id;
  private_key = replicate 64 1;
  validators = demo_set;
  validate = none;
  height = 0;
  tip_hash = genesis_hash;
  blocks = [];
  pending = [];
  voted = [];
  locked_height = 0;
  locked_hash = [];
}

-- A round of the protocol, as a replica sees it.
abbrev pub demo_inputs : List Input
demo_inputs =
    record { validate = none; message = proposal demo_block }
    ∷ record { validate = none; message = certified demo_block (demo_qc prepare) }
    ∷ record { validate = none; message = certified demo_block (demo_qc precommit) }
    ∷ record { validate = none; message = certified demo_block (demo_qc commit) }
    ∷ []
