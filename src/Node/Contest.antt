-- ===== src/Node/Contest.antt =====
-- What validateCompetition accepts (internal/node/node.go).
use ai_po_w_unified_dag.Prelude.{
  refl, ◌≡◌, inl, inr, ℕ, List, [], ◌∷◌, true, false, ◌||◌, some, Bytes, ok, fail_if, lookup,
  contains, fresh_tail, distinct, All, ◌/=◌, bytes_eq, nat_eq, eq_bytes_iff, nat_beq_iff,
  Bool-cases, Option-cases, arith,
}
use ai_po_w_unified_dag.Prelude.Results.{map_err, >>=-ok, >>-ok, fail_if-ok, map_err-ok}
use ai_po_w_unified_dag.Protocol.{
  PowTicket, AiProofBundle, Crypto, hash_json, hash_bytes, ticket_signing_bytes,
}
use ai_po_w_unified_dag.Protocol.Primitives.{result}
use ai_po_w_unified_dag.HotStuff.Validators.{public_key}
use ai_po_w_unified_dag.AiPow.Tickets.{verify, select_winner}
use ai_po_w_unified_dag.AiPow.Winner.{miners, IsLeast, select_winner-ok}
use ai_po_w_unified_dag.AiSeal.Types.{Manifest, Proof, VerificationResult, default_limits}
use ai_po_w_unified_dag.AiSeal.Verify.{verify_expected}
use ai_po_w_unified_dag.Node.State.{
  Node, Environment, equal_hash, challenge_mismatch, result_hash_mismatch, policy_mismatch,
  content_mismatch, ticket_binding, bad_signature, seal_rejected, ticket_rejected,
}
use ai_po_w_unified_dag.Node.Competition.{
  Round, verify_bytes, challenge_for, check_bundle, check_sealed, check_ticket_signature,
  check_ticket, check_tickets, validate_competition, proofs_by_miner, check_proof_count,
}

module _ ⦃v : Environment⦄ ⦃c : Crypto⦄ where
  -- A bundle whose proof VerifyBytes and VerifyExpected accept for the round and the miner, and
  -- whose digests are those of the ticket.
  pub record IsSealedBy (fuel : ℕ) (n : Node) (round : Round) (m : Manifest) (ticket : PowTicket)
      : Type 0 where
    pub bundle : AiProofBundle
    pub verification : VerificationResult
    pub proof : Proof
    pub content : bundle.content_hash ≡ hash_bytes bundle.proof
    pub accepted :
        verify_bytes fuel m bundle.proof n.ai_seal_target default_limits ≡ ok (verification, proof)
    pub expected : verify_expected proof verification (challenge_for n round ticket) ≡ ok tt
    pub same_proof : equal_hash verification.proof_hash ticket.ai_proof_hash ≡ true
    pub same_digest : equal_hash verification.ai_digest ticket.ai_digest ≡ true

  -- A ticket of a validator for the round: it has the policy of the node, enough work, a signature
  -- under the validator's key, and an AISeal proof if the node has a manifest.
  pub record IsTicketFor (fuel : ℕ) (n : Node) (round : Round) (ticket : PowTicket) : Type 0 where
    pub key : Bytes
    pub signature : Bytes
    pub of_validator : public_key n.validators ticket.miner_id ≡ some key
    pub at_height : ticket.height ≡ round.height
    pub on_parent : ticket.parent_hash ≡ round.parent_hash
    pub for_job : ticket.job_id ≡ round.job.id
    pub for_result : ticket.result_hash ≡ hash_json (result round.result)
    pub difficulty_is : ticket.difficulty ≡ n.difficulty
    pub manifest_is : ticket.manifest_root ≡ n.manifest_root
    pub sealed : (m : Manifest) → n.ai_seal_manifest ≡ some m → IsSealedBy fuel n round m ticket
    pub worked : verify ticket ≡ ok tt
    pub decodes : c.base64_decode ticket.signature ≡ some signature
    pub signed : c.ed25519_verify key (ticket_signing_bytes ticket) signature ≡ true

  check_bundle-ok :
      (fuel : ℕ) (n : Node) (round : Round) (m : Manifest) (ticket : PowTicket)
      (bundle : AiProofBundle)
      → check_bundle fuel n round m ticket bundle ≡ ok tt
      → IsSealedBy fuel n round m ticket
  unfolding check_bundle
  check_bundle-ok fuel n round m ticket bundle h =
      let (first, h) = >>-ok _ _ h in
      let ((verification, proof), accepted, h) =
        >>=-ok (verify_bytes fuel m bundle.proof n.ai_seal_target default_limits) _ h in
      let (expected, last) =
        >>-ok
          (map_err seal_rejected
            (verify_expected proof verification (challenge_for n round ticket)))
          _ h in
      let bound = fail_if-ok _ content_mismatch first in
      let tied = fail_if-ok _ ticket_binding last in
      record {
        bundle = bundle;
        verification = verification;
        proof = proof;
        content = (eq_bytes_iff bundle.content_hash (hash_bytes bundle.proof)).0 (ground arith);
        accepted = accepted;
        expected = map_err-ok seal_rejected _ expected;
        same_proof = ground arith;
        same_digest = ground arith;
      }

  check_sealed-ok :
      (fuel : ℕ) (n : Node) (round : Round) (by_miner : List (Bytes × AiProofBundle))
      (ticket : PowTicket) (m : Manifest)
      → check_sealed fuel n round by_miner ticket ≡ ok tt
      → n.ai_seal_manifest ≡ some m
      → IsSealedBy fuel n round m ticket
  unfolding check_sealed
  check_sealed-ok fuel n round by_miner ticket m h given =
      let h = rw (given, check_sealed) at h in
      elim (Option-cases (lookup ticket.miner_id by_miner)) [
        | inl missing ↦ let k = rw missing at h in cc k
        | inr (bundle, found) ↦ check_bundle-ok fuel n round m ticket bundle (rw found at h)
      ]

  check_ticket_signature-ok :
      (key : Bytes) (ticket : PowTicket)
      → check_ticket_signature key ticket ≡ ok tt
      → (sig : Bytes) × (c.base64_decode ticket.signature ≡ some sig)
        × (c.ed25519_verify key (ticket_signing_bytes ticket) sig ≡ true)
  unfolding check_ticket_signature
  check_ticket_signature-ok key ticket h = elim (Option-cases (c.base64_decode ticket.signature)) [
    | inl bad ↦ let k = rw (bad, check_ticket_signature) at h in cc k
    | inr (sig, good) ↦
        let passed = fail_if-ok _ bad_signature (rw (good, check_ticket_signature) at h) in
        (sig, good, ground arith)
  ]

  check_ticket-ok :
      (fuel : ℕ) (n : Node) (round : Round) (by_miner : List (Bytes × AiProofBundle))
      (ticket : PowTicket) (key : Bytes)
      → public_key n.validators ticket.miner_id ≡ some key
      → check_ticket fuel n round by_miner ticket key ≡ ok tt
      → IsTicketFor fuel n round ticket
  unfolding check_ticket
  check_ticket-ok fuel n round by_miner ticket key known h =
      let other_round =
        ticket.height /= round.height
        || ticket.parent_hash /= round.parent_hash
        || ticket.job_id /= round.job.id in
      let other_result = ticket.result_hash /= hash_json (result round.result) in
      let other_policy =
        ticket.difficulty /= n.difficulty || ticket.manifest_root /= n.manifest_root in
      let (challenge, h) = >>-ok (fail_if other_round challenge_mismatch) _ h in
      let (same_result, h) = >>-ok (fail_if other_result result_hash_mismatch) _ h in
      let (policy, h) = >>-ok (fail_if other_policy policy_mismatch) _ h in
      let (sealed, h) = >>-ok (check_sealed fuel n round by_miner ticket) _ h in
      let (worked, signed) = >>-ok (map_err ticket_rejected (verify ticket)) _ h in
      let challenge_ok = fail_if-ok other_round challenge_mismatch challenge in
      let result_ok = fail_if-ok other_result result_hash_mismatch same_result in
      let policy_ok = fail_if-ok other_policy policy_mismatch policy in
      let (sig, decodes, verifies) = check_ticket_signature-ok key ticket signed in
      record {
        key = key;
        signature = sig;
        of_validator = known;
        at_height = (nat_beq_iff ticket.height round.height).0 (ground arith);
        on_parent = (eq_bytes_iff ticket.parent_hash round.parent_hash).0 (ground arith);
        for_job = (eq_bytes_iff ticket.job_id round.job.id).0 (ground arith);
        for_result =
            (eq_bytes_iff ticket.result_hash (hash_json (result round.result))).0 (ground arith);
        difficulty_is = (nat_beq_iff ticket.difficulty n.difficulty).0 (ground arith);
        manifest_is = (eq_bytes_iff ticket.manifest_root n.manifest_root).0 (ground arith);
        sealed = λ m given. check_sealed-ok fuel n round by_miner ticket m sealed given;
        worked = map_err-ok ticket_rejected (verify ticket) worked;
        decodes = decodes;
        signed = verifies;
      }

  -- The miners of the tickets are none of those seen, and no two are the same.
  check_tickets-ok :
      (fuel : ℕ) (n : Node) (round : Round) (by_miner : List (Bytes × AiProofBundle))
      (seen : List Bytes) (tickets : List PowTicket)
      → check_tickets fuel n round by_miner seen tickets ≡ ok tt
      → All (IsTicketFor fuel n round) tickets
        × All (λ id. contains seen id ≡ false) (miners tickets)
        × (distinct (miners tickets) ≡ true)
  unfolding check_tickets distinct contains
  check_tickets-ok fuel n round by_miner seen [] h = (tt, tt, refl)
  check_tickets-ok fuel n round by_miner seen (t ∷ ts) h =
      elim (Bool-cases (contains seen t.miner_id)) [
        | inl twice ↦ let k = rw (twice, check_tickets) at h in cc k
        | inr fresh ↦ elim (Option-cases (public_key n.validators t.miner_id)) [
          | inl unknown ↦ let k = rw (fresh, check_tickets) at h in let l = rw unknown at k in cc l
          | inr (key, known) ↦
              let k = rw (fresh, check_tickets) at h in
              let (here, rest) =
                >>-ok (check_ticket fuel n round by_miner t key) _ (rw known at k) in
              let (all, unseen, apart) =
                check_tickets-ok fuel n round by_miner (t.miner_id ∷ seen) ts rest in
              let (unseen_before, apart_here) = fresh_tail t.miner_id seen (miners ts) unseen in
              (
                (check_ticket-ok fuel n round by_miner t key known here, all),
                (fresh, unseen_before),
                ground arith,
              )
        ]
      ]

  -- validateCompetition returns a ticket only if each ticket is one of a validator for the round,
  -- with the policy of the node, enough work, a signature and, if the node has a manifest, an
  -- accepted AISeal proof, no two are of one miner, and the ticket is the least of them.
  pub validate_competition-ok :
      (fuel : ℕ) (n : Node) (round : Round) (tickets : List PowTicket) (proofs : List AiProofBundle)
      {winner : PowTicket}
      → validate_competition fuel n round tickets proofs ≡ ok winner
      → All (IsTicketFor fuel n round) tickets
        × (distinct (miners tickets) ≡ true)
        × IsLeast tickets winner
  unfolding validate_competition
  validate_competition-ok fuel n round tickets proofs {winner} h =
      let (by_miner, _, h) = >>=-ok (proofs_by_miner proofs []) _ h in
      let (_, h) = >>-ok (check_proof_count n tickets proofs) _ h in
      let (checked, chosen) = >>-ok (check_tickets fuel n round by_miner [] tickets) _ h in
      let (all, _, apart) = check_tickets-ok fuel n round by_miner [] tickets checked in
      let (_, least) =
        select_winner-ok tickets (map_err-ok ticket_rejected (select_winner tickets) chosen) in
      (all, apart, least)
