-- ===== src/HotStuff/Replica.antt =====
-- internal/hotstuff/hotstuff.go: Replica, with OnProposal and OnQC. A method returns the new state
-- and its result. The mutex makes each call one step.
use ai_po_w_unified_dag.Prelude.{
  ℕ, ◌+◌, List, [], ◌∷◌, ◌++◌, Bool, true, false, ◌&&◌, ◌||◌, Option, none, some, Bytes, Result, ok,
  err, if◌then◌else◌, length, lookup, insert, delete, u64, ◌==◌, ◌/=◌, bytes_eq, nat_eq,
}
use ai_po_w_unified_dag.Protocol.{
  Phase, prepare, precommit, commit, other, phase_eq, Vote, QuorumCertificate, Block, Crypto,
  vote_signing_bytes, block_hash, genesis_hash,
}
use ai_po_w_unified_dag.HotStuff.Errors.{
  Error, not_in_validator_set, invalid_private_key, conflicts_with_lock, invalid_qc,
  qc_for_other_block, commit_not_extending, unsupported_phase, unexpected_height, parent_mismatch,
  block_validation, double_vote,
}
use ai_po_w_unified_dag.HotStuff.Validators.{ValidatorSet, verify_qc}

-- `type BlockValidator func(Block) error`: `none` is the nil error.
abbrev pub BlockValidator : Type 0
BlockValidator = Block → Option Bytes

pub record Replica : Type 0 where
  pub id : Bytes
  pub private_key : Bytes
  pub validators : ValidatorSet
  pub validate : Option BlockValidator
  pub height : ℕ  -- uint64
  pub tip_hash : Bytes
  pub blocks : List Block
  pub pending : List (Bytes × Block)
  pub voted : List (ℕ × List (Phase × Bytes))
  pub locked_height : ℕ  -- uint64
  pub locked_hash : Bytes

-- ed25519.PrivateKeySize
abbrev pub private_key_size : ℕ
private_key_size = 64

unfoldable pub new_replica :
    Bytes → Bytes → ValidatorSet → Option BlockValidator → Result Error Replica
new_replica id private_key validators validate = elim (lookup id validators.keys) [
  | none ↦ err (not_in_validator_set id)
  | some _ ↦
      if length private_key /= private_key_size
      then err invalid_private_key
      else ok (record {
        id = id;
        private_key = private_key;
        validators = validators;
        validate = validate;
        height = 0;
        tip_hash = genesis_hash;
        blocks = [];
        pending = [];
        voted = [];
        locked_height = 0;
        locked_hash = [];
      })
]

-- `r.voted[height]`, where a missing map reads as an empty one.
unfoldable pub phases_at : List (ℕ × List (Phase × Bytes)) → ℕ → List (Phase × Bytes)
phases_at voted height = elim (lookup height voted) [ none ↦ [] | some m ↦ m ]

-- `r.voted[height][phase]`, where a missing entry reads as the empty string.
unfoldable pub voted_at : List (ℕ × List (Phase × Bytes)) → ℕ → Phase → Bytes
voted_at voted height phase = elim (lookup phase (phases_at voted height)) [
  | none ↦ []
  | some hash ↦ hash
]

abbrev pub run_validator : Option BlockValidator → Block → Option Error
run_validator none block = none
run_validator (some validate) block = elim (validate block) [
  | none ↦ none
  | some reason ↦ some (block_validation reason)
]

-- The `(*Vote, bool, error)` of OnQC: the vote, whether the block is final, or the error.
abbrev pub QcReply : Type 0
QcReply = Result Error (Option Vote × Bool)

abbrev pub reply_vote : Replica × Result Error Vote → Replica × QcReply
reply_vote (r, ok vote) = (r, ok (some vote, false))
reply_vote (r, err e) = (r, err e)

module _ ⦃c : Crypto⦄ where
  unfoldable pub sign_vote : Replica → Phase → ℕ → Bytes → Vote
  sign_vote r phase height hash = record {
    phase = phase;
    height = height;
    block_hash = hash;
    voter_id = r.id;
    signature =
        c.base64_encode (c.ed25519_sign r.private_key (vote_signing_bytes phase height hash));
  }

  -- voteLocked. A refusal needs an earlier vote, so the map of the height is there already.
  unfoldable pub vote_locked : Replica → Phase → ℕ → Bytes → Replica × Result Error Vote
  vote_locked r phase height hash =
      let previous = voted_at r.voted height phase in
      if previous /= [] && previous /= hash then (r, err (double_vote height phase)) else (
        record r { voted = insert height (insert phase hash (phases_at r.voted height)) r.voted },
        ok (sign_vote r phase height hash),
      )

  -- validateBlockLocked: `none` is the nil error.
  unfoldable pub validate_block_locked : Replica → Block → Option Error
  validate_block_locked r block =
      if block.header.height == r.height && block_hash block == r.tip_hash
      then none
      else if block.header.height /= u64 (r.height + 1)
      then some (unexpected_height block.header.height (u64 (r.height + 1)))
      else if block.header.parent_hash /= r.tip_hash
      then some (parent_mismatch block.header.parent_hash r.tip_hash)
      else run_validator r.validate block

  abbrev pub breaks_lock : Replica → Block → Bool
  breaks_lock r block =
      r.locked_height == block.header.height
      && r.locked_hash /= []
      && r.locked_hash /= block_hash block

  abbrev pub keep_pending : Replica → Block → Replica
  keep_pending r block = record r { pending = insert (block_hash block) block r.pending }

  unfoldable pub on_proposal : Replica → Block → Replica × Result Error Vote
  on_proposal r block = elim (validate_block_locked r block) [
    | some e ↦ (r, err e)
    | none ↦
        if breaks_lock r block
        then (r, err conflicts_with_lock)
        else vote_locked (keep_pending r block) prepare block.header.height (block_hash block)
  ]

  unfoldable pub on_commit : Replica → Block → Replica × QcReply
  on_commit r block =
      if r.height == block.header.height && r.tip_hash == block_hash block
      then (r, ok (none, true))
      else if block.header.height /= u64 (r.height + 1) || block.header.parent_hash /= r.tip_hash
      then (r, err commit_not_extending)
      else (
        record r {
          blocks = r.blocks ++ block ∷ [];
          height = block.header.height;
          tip_hash = block_hash block;
          pending = delete (block_hash block) r.pending;
        },
        ok (none, true),
      )

  -- The `switch` of OnQC.
  unfoldable pub on_phase : Replica → Block → Phase → ℕ → Replica × QcReply
  on_phase r block prepare height = reply_vote (vote_locked r precommit height (block_hash block))
  on_phase r block precommit height = reply_vote (
      vote_locked (record r { locked_height = height; locked_hash = block_hash block }) commit
        height (block_hash block))
  on_phase r block commit height = on_commit r block
  on_phase r block (other text) height = (r, err (unsupported_phase (other text)))

  unfoldable pub on_qc : Replica → Block → QuorumCertificate → Replica × QcReply
  on_qc r block qc = elim (verify_qc r.validators qc) [
    | err e ↦ (r, err (invalid_qc e))
    | ok _ ↦
        if qc.block_hash /= block_hash block || qc.height /= block.header.height
        then (r, err qc_for_other_block)
        else elim (validate_block_locked r block) [
          | some e ↦ (r, err e)
          | none ↦ on_phase (keep_pending r block) block qc.phase qc.height
        ]
  ]
