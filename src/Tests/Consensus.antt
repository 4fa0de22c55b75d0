-- ===== src/Tests/Consensus.antt =====
-- A round of the protocol among four validators.
use ai_po_w_unified_dag.HotStuff.Certificates.{make_qc_complete, verify_qc-ok_iff, Certifies}
use ai_po_w_unified_dag.HotStuff.Voting.{no_double_vote}
use ai_po_w_unified_dag.HotStuff.Forks.{chains_agree, HaveUnforgedVotes}
use ai_po_w_unified_dag.HotStuff.Chain.{HasChain, delivered, run-HasChain}
use ai_po_w_unified_dag.Go.Hex.{encode_to_string}
use ai_po_w_unified_dag.HotStuff.Replica.{
  on_proposal, on_qc, on_phase, on_commit, validate_block_locked, vote_locked, sign_vote, voted_at,
  phases_at,
}
use ai_po_w_unified_dag.Protocol.{
  vote_signing_bytes, Vote, Phase, prepare, precommit, commit, other, block_hash, hash_json,
  hash_bytes, genesis_hash, phase_beq, QuorumCertificate,
}
use ai_po_w_unified_dag.HotStuff.History.{run, deliver, has_cast}
use ai_po_w_unified_dag.HotStuff.Validators.{
  verify_qc, verify_vote, make_qc, collect_votes, certify, values, vote_less,
}
use ai_po_w_unified_dag.HotStuff.Agreement.{
  AreUnforged, Network, FewFaulty, agreement, KeysAreMembers,
}
use ai_po_w_unified_dag.Tests.Demo.{
  demo, demo_set, demo_replica, demo_inputs, demo_block, demo_qc, demo_votes, demo_vote,
  demo_block_hash, vote_code, vote_codes, phase_code, demo_validators,
}
use ai_po_w_unified_dag.Prelude.{
  ◌≡◌, refl, Bytes, ok, List, contains, true, bytes_eq, ℕ, ◌∷◌, lookup, insert, codes, [], eq_bytes,
  delete, Option-cases, inl, inr, Bool-cases, arith, sort_slice, ◌↔◌, ◌==◌, keys, ◌&&◌, nat_beq_iff,
  eq_bytes_iff, nat_eq, ◌++◌,
}

-- The votes that a validator casts in the round.
abbrev demo_cast : Bytes → List Vote
demo_cast id = demo_vote prepare id ∷ demo_vote precommit id ∷ demo_vote commit id ∷ []

run_demo : (id : Bytes) → (run (demo_replica id) demo_inputs).1 ≡ demo_cast id
unfolding run deliver on_proposal on_qc on_phase on_commit validate_block_locked vote_locked
    sign_vote voted_at phases_at verify_qc make_qc collect_votes certify verify_vote block_hash
    hash_json hash_bytes vote_signing_bytes lookup insert delete values encode_to_string contains
    codes eq_bytes genesis_hash phase_beq
run_demo id = refl

chain_demo : (id : Bytes) → (run (demo_replica id) demo_inputs).0.blocks ≡ demo_block ∷ []
unfolding run deliver on_proposal on_qc on_phase on_commit validate_block_locked vote_locked
    sign_vote voted_at phases_at verify_qc make_qc collect_votes certify verify_vote block_hash
    hash_json hash_bytes vote_signing_bytes lookup insert delete values encode_to_string contains
    codes eq_bytes genesis_hash phase_beq
chain_demo id = refl

verify_demo :
    (phase : Phase)
    → contains vote_codes (phase_code phase ∷ []) ≡ true
    → verify_qc demo_set (demo_qc phase) ≡ ok tt
unfolding verify_qc make_qc collect_votes certify verify_vote vote_signing_bytes lookup insert
    values contains codes eq_bytes phase_beq
verify_demo prepare h = refl
verify_demo precommit h = refl
verify_demo commit h = refl
verify_demo (other x) h = cc

abbrev demo_network : Network
demo_network = record { honest = λ id. true; replica = demo_replica; inputs = λ id. demo_inputs }

demo_verify_vote :
    (v : Vote)
    → verify_vote demo_set v ≡ ok tt
    → contains vote_codes (vote_code v.phase v.height v.block_hash) ≡ true
unfolding verify_vote vote_signing_bytes
demo_verify_vote v h = elim (Option-cases (lookup v.voter_id demo_validators)) [
  | inl unknown ↦ let bad = rw (unknown, verify_vote) at h in cc
  | inr (key, known) ↦
      elim (Bool-cases (contains vote_codes (vote_code v.phase v.height v.block_hash))) [
        | inl good ↦ good
        | inr off ↦ let bad = rw (known, verify_vote, vote_signing_bytes, off) at h in cc
      ]
]

demo_code_here :
    (phase : Phase) (height : ℕ) (hash id : Bytes)
    → height ≡ 1
    → hash ≡ demo_block_hash
    → contains vote_codes (phase_code phase ∷ []) ≡ true
    → has_cast (demo_cast id) phase height hash ≡ true
unfolding contains has_cast phase_beq eq_bytes codes
demo_code_here prepare height hash id e f h = rw (e, f) refl
demo_code_here precommit height hash id e f h = rw (e, f) refl
demo_code_here commit height hash id e f h = rw (e, f) refl
demo_code_here (other text) height hash id e f h = cc

demo_code :
    (phase : Phase) (height : ℕ) (hash id : Bytes)
    → contains vote_codes (vote_code phase height hash) ≡ true
    → has_cast (demo_cast id) phase height hash ≡ true
unfolding contains eq_bytes
demo_code phase height hash id h = elim (Bool-cases (height == 1 && hash == demo_block_hash)) [
  | inl here ↦
      demo_code_here phase height hash id ((nat_beq_iff height 1).0 (ground arith))
        ((eq_bytes_iff hash demo_block_hash).0 (ground arith)) (rw here at h)
  | inr off ↦ let bad = rw off at h in cc
]

demo-AreUnforged : (votes : List Vote) → AreUnforged demo_set demo_network votes
demo-AreUnforged [] = tt
demo-AreUnforged (v ∷ votes) = (
  λ h good.
      rw (run_demo v.voter_id)
        (demo_code v.phase v.height v.block_hash v.voter_id (demo_verify_vote v good)),
  demo-AreUnforged votes,
)

demo-HaveUnforgedVotes :
    (seen : List QuorumCertificate) → HaveUnforgedVotes demo_set demo_network seen
demo-HaveUnforgedVotes [] = tt
demo-HaveUnforgedVotes (qc ∷ seen) = (demo-AreUnforged qc.votes, demo-HaveUnforgedVotes seen)

demo_members : KeysAreMembers demo_set
unfolding contains keys eq_bytes
demo_members id h = h

four_honest : FewFaulty demo_set demo_network
four_honest = omega arith

demo_HasChain : (id : Bytes) → HasChain [] demo_set (demo_replica id)
unfolding genesis_hash
demo_HasChain id = record { set = refl; chain = tt; height_is = refl; tip_is = refl }

agreement_example : demo_block_hash ≡ demo_block_hash
unfolding contains eq_bytes
agreement_example =
    agreement demo_set demo_network (demo_qc prepare) (demo_qc prepare) demo_members four_honest
      (demo-AreUnforged (demo_qc prepare).votes) (demo-AreUnforged (demo_qc prepare).votes)
      (verify_demo prepare refl) (verify_demo prepare refl) refl refl

chains_agree_example : block_hash demo_block ≡ block_hash demo_block
chains_agree_example =
    chains_agree demo_set demo_network (demo_replica (97 ∷ [])) (demo_replica (98 ∷ [])) [] []
      demo_inputs demo_inputs 0 demo_members four_honest
      (demo-HaveUnforgedVotes (delivered demo_inputs ++ []))
      (demo-HaveUnforgedVotes (delivered demo_inputs ++ [])) (demo_HasChain (97 ∷ []))
      (demo_HasChain (98 ∷ [])) (rw (chain_demo (97 ∷ [])) refl) (rw (chain_demo (98 ∷ [])) refl)

run-HasChain_example :
    HasChain (delivered demo_inputs ++ []) demo_set (run (demo_replica (97 ∷ [])) demo_inputs).0
run-HasChain_example =
    run-HasChain [] demo_set (demo_replica (97 ∷ [])) demo_inputs (demo_HasChain (97 ∷ []))

no_double_vote_example : demo_block_hash ≡ demo_block_hash
unfolding contains eq_bytes
no_double_vote_example =
    no_double_vote (demo_replica (97 ∷ [])) demo_inputs commit 1 demo_block_hash demo_block_hash
      (rw (run_demo (97 ∷ [])) (demo_code_here commit 1 demo_block_hash (97 ∷ []) refl refl refl))
      (rw (run_demo (97 ∷ [])) (demo_code_here commit 1 demo_block_hash (97 ∷ []) refl refl refl))

verify_qc-ok_iff_example :
    (verify_qc demo_set (demo_qc commit) ≡ ok tt)
    ↔ Certifies demo_set commit 1 demo_block_hash (demo_votes commit)
verify_qc-ok_iff_example = verify_qc-ok_iff demo_set (demo_qc commit)

make_qc_complete_example :
    make_qc demo_set commit 1 demo_block_hash (demo_votes commit)
    ≡ ok (record {
      phase = commit;
      height = 1;
      block_hash = demo_block_hash;
      votes = sort_slice vote_less (demo_votes commit);
    })
unfolding contains eq_bytes
make_qc_complete_example =
    make_qc_complete demo_set commit 1 demo_block_hash (demo_votes commit)
      ((verify_qc-ok_iff demo_set (demo_qc commit)).0 (verify_demo commit refl))
