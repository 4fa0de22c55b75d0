-- ===== src/HotStuff/Validators.antt =====
-- internal/hotstuff/hotstuff.go: ValidatorSet, with VerifyVote, MakeQC and VerifyQC.
use ai_po_w_unified_dag.Prelude.{
  ℕ, ◌+◌, ◌*◌, ◌/◌, List, [], ◌∷◌, ◌++◌, Bool, ◌||◌, Option, none, some, Bytes, Result, ok, err,
  if◌then◌else◌, ltb, length, lookup, insert, sort_slice, lt_bytes, ◌==◌, ◌/=◌, bytes_eq, nat_eq,
}
use ai_po_w_unified_dag.Protocol.{
  Phase, phase_eq, Vote, QuorumCertificate, Crypto, vote_signing_bytes,
}
use ai_po_w_unified_dag.HotStuff.Errors.{
  Error, too_few_validators, invalid_validator, unknown_voter, decode_vote_signature,
  invalid_vote_signature, vote_not_for_subject, vote_from, duplicate_vote, not_enough_votes,
}

pub record ValidatorSet : Type 0 where
  pub keys : List (Bytes × Bytes)
  pub ids : List Bytes

-- ed25519.PublicKeySize
abbrev pub public_key_size : ℕ
public_key_size = 32

-- The loop of NewValidatorSet over the entries of the map.
unfoldable pub add_validators : ValidatorSet → List (Bytes × Bytes) → Result Error ValidatorSet
add_validators s [] = ok s
add_validators s ((id, key) ∷ rest) =
    let more =
      add_validators (record { keys = insert id key s.keys; ids = s.ids ++ id ∷ [] }) rest in
    if id == [] || length key /= public_key_size then err (invalid_validator id) else more

unfoldable pub new_validator_set : List (Bytes × Bytes) → Result Error ValidatorSet
new_validator_set entries =
    if ltb (length entries) 4
    then err too_few_validators
    else elim (add_validators (record { keys = []; ids = [] }) entries) [
      | ok s ↦ ok (record s { ids = sort_slice lt_bytes s.ids })
      | err e ↦ err e
    ]

abbrev pub set_len : ValidatorSet → ℕ
set_len s = length s.ids

abbrev pub quorum : ValidatorSet → ℕ
quorum s = 2 * set_len s / 3 + 1

unfoldable pub public_key : ValidatorSet → Bytes → Option Bytes
public_key s id = lookup id s.keys

abbrev pub off_subject : Phase → ℕ → Bytes → Vote → Bool
off_subject phase height hash vote =
    vote.phase /= phase || vote.height /= height || vote.block_hash /= hash

unfoldable pub values : List (Bytes × Vote) → List Vote
values [] = []
values ((id, vote) ∷ m) = vote ∷ values m

unfoldable pub vote_less : Vote → Vote → Bool
vote_less a b = lt_bytes a.voter_id b.voter_id

-- From the map to the certificate.
unfoldable pub certify :
    ValidatorSet → Phase → ℕ → Bytes → List (Bytes × Vote) → Result Error QuorumCertificate
certify s phase height hash unique =
    if ltb (length unique) (quorum s)
    then err (not_enough_votes (length unique) (quorum s))
    else ok (record {
      phase = phase;
      height = height;
      block_hash = hash;
      votes = sort_slice vote_less (values unique);
    })

module _ ⦃c : Crypto⦄ where
  unfoldable pub verify_vote : ValidatorSet → Vote → Result Error (Unit {0})
  verify_vote s vote = elim (lookup vote.voter_id s.keys) [
    | none ↦ err (unknown_voter vote.voter_id)
    | some key ↦ elim (c.base64_decode vote.signature) [
      | none ↦ err decode_vote_signature
      | some sig ↦
          if c.ed25519_verify key (vote_signing_bytes vote.phase vote.height vote.block_hash) sig
          then ok tt
          else err invalid_vote_signature
    ]
  ]

  -- The loop of MakeQC over the votes; `unique` is its map.
  unfoldable pub collect_votes :
      ValidatorSet
      → Phase
      → ℕ
      → Bytes
      → List Vote
      → List (Bytes × Vote)
      → Result Error (List (Bytes × Vote))
  collect_votes s phase height hash [] unique = ok unique
  collect_votes s phase height hash (vote ∷ votes) unique =
      let rest = collect_votes s phase height hash votes (insert vote.voter_id vote unique) in
      if off_subject phase height hash vote
      then err vote_not_for_subject
      else elim (verify_vote s vote) [
        | err e ↦ err (vote_from vote.voter_id e)
        | ok _ ↦ elim (lookup vote.voter_id unique) [
          | some _ ↦ err (duplicate_vote vote.voter_id)
          | none ↦ rest
        ]
      ]

  unfoldable pub make_qc :
      ValidatorSet → Phase → ℕ → Bytes → List Vote → Result Error QuorumCertificate
  make_qc s phase height hash votes = elim (collect_votes s phase height hash votes []) [
    | ok unique ↦ certify s phase height hash unique
    | err e ↦ err e
  ]

  unfoldable pub verify_qc : ValidatorSet → QuorumCertificate → Result Error (Unit {0})
  verify_qc s qc = elim (make_qc s qc.phase qc.height qc.block_hash qc.votes) [
    | ok _ ↦ ok tt
    | err e ↦ err e
  ]
