-- ===== src/HotStuff/Errors.antt =====
-- internal/hotstuff/hotstuff.go: the errors that it returns, a constructor for each text.
use ai_po_w_unified_dag.Prelude.{ℕ, Bytes}
use ai_po_w_unified_dag.Protocol.{Phase}

pub data Error : Type 0 where
  too_few_validators : Error
  invalid_validator : (id : Bytes) → Error
  unknown_voter : (id : Bytes) → Error
  decode_vote_signature : Error
  invalid_vote_signature : Error
  vote_not_for_subject : Error
  vote_from : (id : Bytes) → Error → Error
  duplicate_vote : (id : Bytes) → Error
  not_enough_votes : (got need : ℕ) → Error
  not_in_validator_set : (id : Bytes) → Error
  invalid_private_key : Error
  conflicts_with_lock : Error
  invalid_qc : Error → Error
  qc_for_other_block : Error
  commit_not_extending : Error
  unsupported_phase : Phase → Error
  unexpected_height : (got want : ℕ) → Error
  parent_mismatch : (got want : Bytes) → Error
  block_validation : (reason : Bytes) → Error
  double_vote : (height : ℕ) → Phase → Error
