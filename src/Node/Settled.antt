-- ===== src/Node/Settled.antt =====
-- The part of validateBlock after the execution engine: what it accepts, and the caches that it keeps
-- sound (internal/node/node.go).
use ai_po_w_unified_dag.Prelude.{
  refl, sym, ◌≡◌, inl, inr, ℕ, ◌≤◌, [], true, some, Bytes, Result, ok, fail_if, length, distinct,
  All, ltb, ltb_false→le, ◌/=◌, bytes_eq, nat_eq, eq_bytes_iff, arith,
}
use ai_po_w_unified_dag.Prelude.Results.{>>-ok, fail_if-ok, Result-cases}
use ai_po_w_unified_dag.Protocol.{
  Block, PowTicket, Crypto, block_hash, hash_json, tickets_root, ai_proofs_root, result_qc_root,
  zkml_proofs_root,
}
use ai_po_w_unified_dag.Protocol.Primitives.{ticket}
use ai_po_w_unified_dag.HotStuff.Validators.{quorum}
use ai_po_w_unified_dag.AiPow.Winner.{miners, IsLeast}
use ai_po_w_unified_dag.Zkml.Circuit.{Gnark}
use ai_po_w_unified_dag.Zkml.Prover.{Verifier}
use ai_po_w_unified_dag.Node.State.{
  Node, Environment, Error, tickets_root_mismatch, ai_proofs_root_mismatch, result_qc_root_mismatch,
  zkml_proofs_root_mismatch, too_few_tickets, winner_mismatch, proposer_mismatch,
}
use ai_po_w_unified_dag.Node.Competition.{validate_competition}
use ai_po_w_unified_dag.Node.Certificate.{validate_result_certificate, check_counts}
use ai_po_w_unified_dag.Node.Validation.{round_of, check_roots, check_winner, check_contest}
use ai_po_w_unified_dag.Node.Contest.{IsTicketFor, validate_competition-ok}
use ai_po_w_unified_dag.Node.Attested.{IsCache}
use ai_po_w_unified_dag.Node.Proved.{IsCertified, validate_result_certificate-IsCertified}

module _ ⦃v : Environment⦄ ⦃g : Gnark⦄ ⦃c : Crypto⦄ where
  -- What a block that is accepted shows, apart from the runner, the clock and the execution engine:
  -- its header commits to its lists, a quorum of validators has a ticket for it, the proposer is the
  -- miner of the least one, and its result is certified.
  pub record IsValidBlock (fuel : ℕ) (n : Node) (b : Block) : Type 0 where
    pub winner : PowTicket
    pub tickets_committed : b.header.tickets_root ≡ tickets_root b.tickets
    pub ai_proofs_committed : b.header.ai_proofs_root ≡ ai_proofs_root b.ai_proofs
    pub result_qc_committed : b.header.result_qc_root ≡ result_qc_root b.result_qc
    pub zkml_proofs_committed : b.header.zkml_proofs_root ≡ zkml_proofs_root b.zkml_proofs
    pub enough : quorum n.validators ≤ length b.tickets
    pub each : All (IsTicketFor fuel n (round_of b)) b.tickets
    pub once : distinct (miners b.tickets) ≡ true
    pub least : IsLeast b.tickets winner
    pub declared : hash_json (ticket winner) ≡ hash_json (ticket b.winner)
    pub proposed : winner.miner_id ≡ b.header.proposer_id
    pub certified :
        (ver : Verifier)
        → n.zkml_verifier ≡ some ver
        → IsCertified n ver (round_of b) b.tickets b.result_qc

  -- The block is valid for a node with the settings of this one, whatever its caches.
  abbrev pub settings : Node → Node
  settings n = record n { validated_execution = []; validated_blocks = []; validated_zkml = [] }

  -- A hash of a block that was valid.
  abbrev pub IsValidHash : ℕ → Node → Bytes → Type 0
  IsValidHash fuel n hash =
      (b : Block) × (past : Node) × (settings past ≡ settings n)
      × (block_hash b ≡ hash)
      × IsValidBlock fuel past b

  -- The caches hold only hashes of valid blocks and of proofs that verify.
  pub record IsSoundNode (fuel : ℕ) (n : Node) : Type 0 where
    pub blocks : All (IsValidHash fuel n) n.validated_blocks
    pub zkml : (ver : Verifier) → n.zkml_verifier ≡ some ver → IsCache ver n.validated_zkml

  check_roots-ok :
      (n : Node) (b : Block)
      → check_roots n b ≡ ok tt
      → (b.header.tickets_root ≡ tickets_root b.tickets)
        × (b.header.ai_proofs_root ≡ ai_proofs_root b.ai_proofs)
        × (b.header.result_qc_root ≡ result_qc_root b.result_qc)
        × (b.header.zkml_proofs_root ≡ zkml_proofs_root b.zkml_proofs)
        × (quorum n.validators ≤ length b.tickets)
  unfolding check_roots
  check_roots-ok n b h =
      let t = b.header.tickets_root /= tickets_root b.tickets in
      let p = b.header.ai_proofs_root /= ai_proofs_root b.ai_proofs in
      let q = b.header.result_qc_root /= result_qc_root b.result_qc in
      let z = b.header.zkml_proofs_root /= zkml_proofs_root b.zkml_proofs in
      let few = ltb (length b.tickets) (quorum n.validators) in
      let (t_ok, h) = >>-ok (fail_if t tickets_root_mismatch) _ h in
      let (p_ok, h) = >>-ok (fail_if p ai_proofs_root_mismatch) _ h in
      let (q_ok, h) = >>-ok (fail_if q result_qc_root_mismatch) _ h in
      let (z_ok, h) = >>-ok (fail_if z zkml_proofs_root_mismatch) _ h in
      let t_same = fail_if-ok t tickets_root_mismatch t_ok in
      let p_same = fail_if-ok p ai_proofs_root_mismatch p_ok in
      let q_same = fail_if-ok q result_qc_root_mismatch q_ok in
      let z_same = fail_if-ok z zkml_proofs_root_mismatch z_ok in
      (
        (eq_bytes_iff b.header.tickets_root (tickets_root b.tickets)).0 (ground arith),
        (eq_bytes_iff b.header.ai_proofs_root (ai_proofs_root b.ai_proofs)).0 (ground arith),
        (eq_bytes_iff b.header.result_qc_root (result_qc_root b.result_qc)).0 (ground arith),
        (eq_bytes_iff b.header.zkml_proofs_root (zkml_proofs_root b.zkml_proofs)).0 (ground arith),
        ltb_false→le (length b.tickets) (quorum n.validators) (fail_if-ok few too_few_tickets h),
      )

  check_winner-ok :
      (b : Block) (winner : PowTicket)
      → check_winner b winner ≡ ok tt
      → (hash_json (ticket winner) ≡ hash_json (ticket b.winner))
        × (winner.miner_id ≡ b.header.proposer_id)
  unfolding check_winner
  check_winner-ok b winner h =
      let other = hash_json (ticket winner) /= hash_json (ticket b.winner) in
      let (first, last) = >>-ok (fail_if other winner_mismatch) _ h in
      let same = fail_if-ok other winner_mismatch first in
      let same_miner =
        fail_if-ok (winner.miner_id /= b.header.proposer_id) proposer_mismatch last in
      (
        (eq_bytes_iff (hash_json (ticket winner)) (hash_json (ticket b.winner))).0 (ground arith),
        (eq_bytes_iff winner.miner_id b.header.proposer_id).0 (ground arith),
      )

  -- Nothing but the cache of zkML proofs changes, and it stays sound.
  certificate-IsSoundNode :
      (fuel : ℕ) (n : Node) (b : Block)
      → IsSoundNode fuel n
      → IsSoundNode fuel
          (validate_result_certificate n (round_of b) b.tickets b.result_qc b.zkml_proofs).0
        × (settings
              (validate_result_certificate n (round_of b) b.tickets b.result_qc b.zkml_proofs).0
            ≡ settings n)
  unfolding validate_result_certificate
  certificate-IsSoundNode fuel n b s =
      let caches = λ (ver : Verifier) (given : n.zkml_verifier ≡ some ver).
        (validate_result_certificate-IsCertified n ver (round_of b) b.tickets b.result_qc
          b.zkml_proofs given (s.zkml ver given)).0 in
      elim (Result-cases (check_counts n (round_of b) b.tickets b.result_qc b.zkml_proofs)) [
        | inr (e, bad) ↦ rw (bad, validate_result_certificate) (s, refl)
        | inl (by_worker, good) ↦
            let caches_after = rw (good, validate_result_certificate) at caches in
            rw (good, validate_result_certificate)
              (record { blocks = s.blocks; zkml = caches_after }, refl)
      ]

  -- After the execution engine: the caches stay sound, and a block that passes is valid.
  abbrev Settles : ℕ → Node → Block → Node × Result Error (Unit {0}) → Type 0
  Settles fuel n b answer =
      IsSoundNode fuel answer.0 × (answer.1 ≡ ok tt → IsValidHash fuel n (block_hash b))

  pub check_contest-Settles :
      (fuel : ℕ) (n : Node) (b : Block)
      → IsSoundNode fuel n
      → Settles fuel n b (check_contest fuel n b)
  unfolding check_contest
  check_contest-Settles fuel n b s = elim (Result-cases (check_roots n b)) [
    | inr (e, bad) ↦ rw (bad, check_contest) (s, λ k. cc k)
    | inl (u, roots) ↦
        elim (Result-cases (validate_competition fuel n (round_of b) b.tickets b.ai_proofs)) [
          | inr (e, bad) ↦ rw (roots, check_contest) (rw bad (s, λ k. cc k))
          | inl (winner, chosen) ↦
              let (sound, same) = certificate-IsSoundNode fuel n b s in
              elim (Result-cases
                (validate_result_certificate n (round_of b) b.tickets b.result_qc
                  b.zkml_proofs).1) [
                    | inr (e, bad) ↦
                        rw (roots, check_contest) (rw chosen (rw bad (sound, λ k. cc k)))
                    | inl (w, fine) ↦ elim (Result-cases (check_winner b winner)) [
                      | inr (e, bad) ↦
                          rw (roots, check_contest)
                            (rw chosen (rw fine (rw bad (sound, λ k. cc k))))
                      | inl (x, won) ↦
                          let (t_same, p_same, q_same, z_same, enough) = check_roots-ok n b roots in
                          let (each, once, least) =
                            validate_competition-ok fuel n (round_of b) b.tickets b.ai_proofs
                              chosen in
                          let (declared, proposed) = check_winner-ok b winner won in
                          let valid : IsValidBlock fuel n b = record {
                            winner = winner;
                            tickets_committed = t_same;
                            ai_proofs_committed = p_same;
                            result_qc_committed = q_same;
                            zkml_proofs_committed = z_same;
                            enough = enough;
                            each = each;
                            once = once;
                            least = least;
                            declared = declared;
                            proposed = proposed;
                            certified = λ ver given.
                                (validate_result_certificate-IsCertified n ver (round_of b)
                                    b.tickets b.result_qc b.zkml_proofs given (s.zkml ver given)).1
                                  fine;
                          } in
                          rw (roots, check_contest)
                            (rw chosen (
                              rw fine (
                                rw won (
                                  record {
                                    blocks = ((b, n, sym same, refl, valid), sound.blocks);
                                    zkml = sound.zkml;
                                  },
                                  λ k. (b, n, refl, refl, valid),
                                ))))
                    ]
                  ]
        ]
  ]
