-- ===== src/HotStuff/Agreement.antt =====
-- Two certificates for one phase and height name one block, as long as less than a third of the
-- validators is faulty (internal/hotstuff/hotstuff.go).
use ai_po_w_unified_dag.Prelude.{
  ℕ, ◌*◌, ◌<◌, ◌≡◌, List, [], ◌∷◌, Bool, true, not, Bytes, ok, arith, length, count_if, contains,
  All, keys, Bool-cases, eq_bytes_iff, ◌==◌, inl, nat_beq_iff, inr, bytes_eq, subst,
}
use ai_po_w_unified_dag.Protocol.{Phase, Vote, QuorumCertificate, Crypto, phase_beq_iff}
use ai_po_w_unified_dag.HotStuff.Validators.{ValidatorSet, verify_vote, verify_qc}
use ai_po_w_unified_dag.HotStuff.Replica.{Replica}
use ai_po_w_unified_dag.HotStuff.Certificates.{
  voters, IsVoteFor, verify_vote-ok-known, verify_qc-ok_iff, length-voters,
}
use ai_po_w_unified_dag.HotStuff.Quorum.{quorums-share}
use ai_po_w_unified_dag.HotStuff.History.{Input, run, has_cast}
use ai_po_w_unified_dag.HotStuff.Voting.{no_double_vote}

-- The keys of the set belong to its members, as NewValidatorSet makes it.
abbrev pub KeysAreMembers : ValidatorSet → Type 0
KeysAreMembers s = (id : Bytes) → contains (keys s.keys) id ≡ true → contains s.ids id ≡ true

-- The replicas that run this program, each with the inputs that it has had.
pub record Network : Type 0 where
  pub honest : Bytes → Bool
  pub replica : Bytes → Replica
  pub inputs : Bytes → List Input

-- Fewer than a third of the validators are faulty.
abbrev pub FewFaulty : ValidatorSet → Network → Type 0
FewFaulty s n = 3 * count_if (λ id. not (n.honest id)) s.ids < length s.ids

module _ ⦃c : Crypto⦄ where
  -- Nobody has forged a vote among these: one in the name of an honest validator that VerifyVote
  -- accepts is one that it has cast.
  abbrev pub AreUnforged : ValidatorSet → Network → List Vote → Type 0
  AreUnforged s n votes =
      All
        (λ (v : Vote).
          n.honest v.voter_id ≡ true
          → verify_vote s v ≡ ok tt
          → has_cast (run (n.replica v.voter_id) (n.inputs v.voter_id)).1 v.phase v.height
              v.block_hash
            ≡ true)
        votes

  voters-members :
      (s : ValidatorSet) (phase : Phase) (height : ℕ) (hash : Bytes) (vs : List Vote)
      → KeysAreMembers s
      → All (IsVoteFor s phase height hash) vs
      → All (λ id. contains s.ids id ≡ true) (voters vs)
  voters-members s phase height hash [] m h = tt
  voters-members s phase height hash (v ∷ vs) m (hv, h) =
      (m v.voter_id (verify_vote-ok-known s v hv.1), voters-members s phase height hash vs m h)

  -- An honest voter of a certificate has cast its vote on the subject.
  honest_voter-has_cast :
      (s : ValidatorSet) (n : Network) (phase : Phase) (height : ℕ) (hash : Bytes) (vs : List Vote)
      (id : Bytes)
      → AreUnforged s n vs
      → All (IsVoteFor s phase height hash) vs
      → contains (voters vs) id ≡ true
      → n.honest id ≡ true
      → has_cast (run (n.replica id) (n.inputs id)).1 phase height hash ≡ true
  unfolding contains
  honest_voter-has_cast s n phase height hash [] id u a k h = cc
  honest_voter-has_cast s n phase height hash (v ∷ vs) id (u, us) ((on, good), a) k h =
      elim (Bool-cases (v.voter_id == id)) [
        | inl same ↦
            let e : v.voter_id ≡ id = (eq_bytes_iff v.voter_id id).0 same in
            rw
              (
                ← e,
                ← (phase_beq_iff v.phase phase).0 (ground arith),
                ← (nat_beq_iff v.height height).0 (ground arith),
                ← (eq_bytes_iff v.block_hash hash).0 (ground arith),
              )
              (u (rw e h) good)
        | inr off ↦ honest_voter-has_cast s n phase height hash vs id us a (ground arith) h
      ]

  -- Agreement: two certificates that VerifyQC accepts, for one phase and one height, certify the
  -- same block hash, if the set's keys belong to its members, fewer than a third of these are
  -- faulty and, in the two certificates, no vote in the name of one that is not faulty is forged;
  -- those that are not faulty may have had any messages in any order.
  pub agreement :
      (s : ValidatorSet) (n : Network) (a b : QuorumCertificate)
      → KeysAreMembers s
      → FewFaulty s n
      → AreUnforged s n a.votes
      → AreUnforged s n b.votes
      → verify_qc s a ≡ ok tt
      → verify_qc s b ≡ ok tt
      → a.phase ≡ b.phase
      → a.height ≡ b.height
      → a.block_hash ≡ b.block_hash
  agreement s n a b members few unforged_a unforged_b va vb same_phase same_height =
      let ca = (verify_qc-ok_iff s a).0 va in
      let cb = (verify_qc-ok_iff s b).0 vb in
      let (id, in_a, in_b, good) =
        quorums-share (voters a.votes) (voters b.votes) s.ids n.honest ca.one_each cb.one_each
          (voters-members s a.phase a.height a.block_hash a.votes members ca.each)
          (voters-members s b.phase b.height b.block_hash b.votes members cb.each)
          (rw (length-voters a.votes) ca.enough) (rw (length-voters b.votes) cb.enough) few in
      let voted_a =
        honest_voter-has_cast s n a.phase a.height a.block_hash a.votes id unforged_a ca.each in_a
          good in
      let voted_b =
        honest_voter-has_cast s n b.phase b.height b.block_hash b.votes id unforged_b cb.each in_b
          good in
      let cast = (run (n.replica id) (n.inputs id)).1 in
      no_double_vote (n.replica id) (n.inputs id) b.phase b.height a.block_hash b.block_hash
        (subst (λ p. has_cast cast p b.height a.block_hash ≡ true) same_phase
          (subst (λ h. has_cast cast a.phase h a.block_hash ≡ true) same_height voted_a))
        voted_b
