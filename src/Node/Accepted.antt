-- ===== src/Node/Accepted.antt =====
-- What validateBlock accepts, and its caches of blocks and proofs (internal/node/node.go).
use ai_po_w_unified_dag.Prelude.{
  refl, ◌≡◌, inl, inr, ℕ, [], true, Bytes, ok, All, bytes_eq, nat_eq, eq_bytes_iff, arith, contains,
  List, Bool-cases, ◌∷◌, ◌∙◌, ◌==◌, subst,
}
use ai_po_w_unified_dag.Prelude.Results.{Result-cases}
use ai_po_w_unified_dag.Protocol.{Block, Crypto, block_hash}
use ai_po_w_unified_dag.Zkml.Circuit.{Gnark}
use ai_po_w_unified_dag.Node.State.{Node, Environment}
use ai_po_w_unified_dag.Node.Validation.{validate_block, check_execution, check_header}
use ai_po_w_unified_dag.Node.Settled.{settings, IsValidHash, IsSoundNode, check_contest-Settles}

module _ ⦃v : Environment⦄ ⦃g : Gnark⦄ ⦃c : Crypto⦄ where
  execution-IsSoundNode :
      (fuel : ℕ) (n : Node) (b : Block)
      → IsSoundNode fuel n
      → IsSoundNode fuel (check_execution n b).0 × (settings (check_execution n b).0 ≡ settings n)
  unfolding check_execution
  execution-IsSoundNode fuel n b s =
      elim (Bool-cases (contains n.validated_execution b.execution.block_hash)) [
        | inl known ↦ rw (known, check_execution) (s, refl)
        | inr new ↦ elim (Bool-cases (v.execution_accepts b.execution)) [
          | inl good ↦
              rw (new, check_execution)
                (rw good (record { blocks = s.blocks; zkml = s.zkml }, refl))
          | inr bad ↦ rw (new, check_execution) (rw bad (s, refl))
        ]
      ]

  cached_hash :
      (fuel : ℕ) (n : Node) (hashes : List Bytes) (hash : Bytes)
      → All (IsValidHash fuel n) hashes
      → contains hashes hash ≡ true
      → IsValidHash fuel n hash
  unfolding contains
  cached_hash fuel n [] hash h k = cc k
  cached_hash fuel n (x ∷ hashes) hash (here, h) k = elim (Bool-cases (x == hash)) [
    | inl same ↦ subst (IsValidHash fuel n) ((eq_bytes_iff x hash).0 same) here
    | inr apart ↦ cached_hash fuel n hashes hash h (ground arith)
  ]

  -- For a node whose caches hold only hashes of blocks that were valid and of zkML proofs that verify:
  -- validateBlock keeps the caches so, whether it returns an error or not, and if it returns none
  -- then some block with the hash of this one was valid for a node with the same settings: its header
  -- commits to its lists, a quorum of validators has distinct, verified and signed tickets for it, the
  -- proposer is the miner of the least one, and with a zkML verifier its result is certified.
  pub validate_block-IsValid :
      (fuel : ℕ) (n : Node) (b : Block)
      → IsSoundNode fuel n
      → IsSoundNode fuel (validate_block fuel n b).0
        × ((validate_block fuel n b).1 ≡ ok tt → IsValidHash fuel n (block_hash b))
  unfolding validate_block
  validate_block-IsValid fuel n b s =
      elim (Bool-cases (contains n.validated_blocks (block_hash b))) [
        | inl known ↦
            rw (known, validate_block)
              (s, λ _. cached_hash fuel n n.validated_blocks (block_hash b) s.blocks known)
        | inr new ↦ elim (Result-cases (check_header n b)) [
          | inr (e, bad) ↦ rw (new, validate_block) (rw bad (s, λ k. cc k))
          | inl (u, header) ↦
              let (sound, same) = execution-IsSoundNode fuel n b s in
              elim (Result-cases (check_execution n b).1) [
                | inr (e, bad) ↦ rw (new, validate_block) (rw header (rw bad (sound, λ k. cc k)))
                | inl (w, fine) ↦
                    let (after, valid) =
                      check_contest-Settles fuel (check_execution n b).0 b sound in
                    rw (new, validate_block)
                      (rw header (
                        rw fine (
                          after,
                          λ k.
                              let (block, past, settled, hash, facts) = valid k in
                              (block, past, settled ∙ same, hash, facts),
                        )))
              ]
        ]
      ]
