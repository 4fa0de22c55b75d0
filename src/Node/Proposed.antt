-- ===== src/Node/Proposed.antt =====
-- The block that Propose builds (internal/node/network.go) against the checks of validateBlock
-- (internal/node/node.go).
use ai_po_w_unified_dag.Prelude.{
  length-sort_slice, refl, ◌≡◌, ℕ, ◌≤◌, false, Bytes, ok, length, ltb, sort_slice, bytes_eq, nat_eq,
  eq_bytes_iff, arith, List, Elem-sort_slice, Elem-of_sort_slice, [], sym, ◌∙◌, Option-cases, inl,
  inr,
}
use ai_po_w_unified_dag.Protocol.{
  PowTicket, AiProofBundle, EvmReceipt, ExecutionPayloadEnvelope, ProposeRequest, Crypto, hash_json,
}
use ai_po_w_unified_dag.Protocol.Primitives.{ticket}
use ai_po_w_unified_dag.HotStuff.Validators.{quorum}
use ai_po_w_unified_dag.Node.State.{Node, Environment, ticket_rejected}
use ai_po_w_unified_dag.Node.Validation.{check_roots, check_winner}
use ai_po_w_unified_dag.Node.Competition.{
  Round, validate_competition, check_proof_count, check_tickets, proofs_by_miner,
}
use ai_po_w_unified_dag.Node.Contest.{validate_competition-ok}
use ai_po_w_unified_dag.Node.Validation.{round_of}
use ai_po_w_unified_dag.Node.Proposal.{build_block, by_miner, by_proof_miner}
use ai_po_w_unified_dag.Node.ProofMap.{proofs_by_miner-sort_slice}
use ai_po_w_unified_dag.Node.Reordered.{check_tickets_same, check_tickets-sort_slice}
use ai_po_w_unified_dag.AiPow.Tickets.{select_winner}
use ai_po_w_unified_dag.AiPow.Winner.{select_winner_same}
use ai_po_w_unified_dag.Prelude.Results.{map_err-ok, >>=-ok, >>-ok}

check_proof_count_same :
    (n : Node) (tickets tickets' : List PowTicket) (proofs proofs' : List AiProofBundle)
    → length tickets ≡ length tickets'
    → length proofs ≡ length proofs'
    → check_proof_count n tickets' proofs' ≡ check_proof_count n tickets proofs
unfolding check_proof_count
check_proof_count_same n tickets tickets' proofs proofs' t p =
    elim (Option-cases n.ai_seal_manifest) [
      | inl none_given ↦ simp (none_given, check_proof_count, p)
      | inr (manifest, given) ↦ simp (given, check_proof_count, t, p)
    ]

module _ ⦃v : Environment⦄ ⦃c : Crypto⦄ where
  -- What validateCompetition returns of tickets and proofs, it returns of them when sorted.
  validate_competition-sort_slice :
      (fuel : ℕ) (n : Node) (round : Round) (tickets : List PowTicket) (proofs : List AiProofBundle)
      {winner : PowTicket}
      → validate_competition fuel n round tickets proofs ≡ ok winner
      → validate_competition fuel n round
          (sort_slice by_miner tickets)
          (sort_slice by_proof_miner proofs)
        ≡ ok winner
  unfolding validate_competition check_proof_count
  validate_competition-sort_slice fuel n round tickets proofs {winner} h =
      let (_, one_each, _) = validate_competition-ok fuel n round tickets proofs h in
      let (held, by_proofs, h) = >>=-ok (proofs_by_miner proofs []) _ h in
      let (counted, h) = >>-ok (check_proof_count n tickets proofs) _ h in
      let (checked, chosen) = >>-ok (check_tickets fuel n round held [] tickets) _ h in
      let (sorted, by_sorted, same) = proofs_by_miner-sort_slice by_proof_miner proofs by_proofs in
      let count : check_proof_count n (sort_slice by_miner tickets)
            (sort_slice by_proof_miner proofs)
          ≡ ok tt =
        check_proof_count_same n tickets (sort_slice by_miner tickets) proofs
          (sort_slice by_proof_miner proofs) (sym (length-sort_slice by_miner tickets))
          (sym (length-sort_slice by_proof_miner proofs))
        ∙ counted in
      let passed =
        check_tickets_same fuel n round held sorted [] (sort_slice by_miner tickets) same
          (check_tickets-sort_slice fuel n round held by_miner tickets checked) in
      let won =
        select_winner_same tickets (sort_slice by_miner tickets) one_each
          (λ t. (Elem-sort_slice by_miner t tickets, Elem-of_sort_slice by_miner t tickets))
          (map_err-ok ticket_rejected (select_winner tickets) chosen) in
      rw (by_sorted, validate_competition) (rw count (rw passed (rw won refl)))

  -- The block that Propose builds for a round passes validateBlock's checks of its competition, of
  -- its roots and of its winner at any node where validateCompetition accepts the request's tickets
  -- and proofs for that round: from the block's own sorted tickets and proofs validateCompetition
  -- returns the ticket that it returned from the request, which Propose put in for the winner. The
  -- tickets are at least a quorum, and the winner is the ticket of the node that proposes.
  pub build_block-passes :
      (fuel : ℕ) (n m : Node) (height : ℕ) (tip timestamp : Bytes) (request : ProposeRequest)
      (winner : PowTicket) (receipt : EvmReceipt) (payload : ExecutionPayloadEnvelope)
      → validate_competition fuel m
          (round_of (build_block n height tip timestamp request winner receipt payload))
          request.tickets
          request.ai_proofs
        ≡ ok winner
      → quorum m.validators ≤ length request.tickets
      → winner.miner_id ≡ n.id
      → (validate_competition fuel m
            (round_of (build_block n height tip timestamp request winner receipt payload))
            (build_block n height tip timestamp request winner receipt payload).tickets
            (build_block n height tip timestamp request winner receipt payload).ai_proofs
          ≡ ok winner)
        × (check_roots m (build_block n height tip timestamp request winner receipt payload)
            ≡ ok tt)
        × (check_winner (build_block n height tip timestamp request winner receipt payload) winner
            ≡ ok tt)
  unfolding check_roots check_winner build_block
  build_block-passes fuel n m height tip timestamp request winner receipt payload accepted enough
        own =
      let b = build_block n height tip timestamp request winner receipt payload in
      let won =
        validate_competition-sort_slice fuel m (round_of b) request.tickets request.ai_proofs
          accepted in
      let size = length-sort_slice by_miner request.tickets in
      let few : ltb (length (sort_slice by_miner request.tickets)) (quorum m.validators) ≡ false =
        ground arith in
      let t = (eq_bytes_iff b.header.tickets_root b.header.tickets_root).1 refl in
      let p = (eq_bytes_iff b.header.ai_proofs_root b.header.ai_proofs_root).1 refl in
      let q = (eq_bytes_iff b.header.result_qc_root b.header.result_qc_root).1 refl in
      let z = (eq_bytes_iff b.header.zkml_proofs_root b.header.zkml_proofs_root).1 refl in
      let w = (eq_bytes_iff (hash_json (ticket winner)) (hash_json (ticket winner))).1 refl in
      let o = (eq_bytes_iff winner.miner_id n.id).1 own in
      (won, rw (t, p, q, z) (rw few refl), rw (w, o) refl)
