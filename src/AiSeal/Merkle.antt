-- ===== src/AiSeal/Merkle.antt =====
-- internal/aiseal/hash.go: verifyMerkleProof.
use ai_po_w_unified_dag.Prelude.{
  ℕ, zero, suc, ◌+◌, ◌/◌, ◌%◌, List, [], ◌∷◌, ◌||◌, Bytes, Result, ok, err, if◌then◌else◌, ltb, leb,
  codes, ◌==◌, ◌/=◌, nat_eq, bytes_eq, u64,
}
use ai_po_w_unified_dag.Protocol.{Crypto}
use ai_po_w_unified_dag.AiSeal.Types.{MerkleProofStep}
use ai_po_w_unified_dag.AiSeal.Errors.{
  Error, bad_leaf_index, bad_right_sibling, bad_left_sibling, merkle_root_mismatch,
}
use ai_po_w_unified_dag.AiSeal.Encoding.{decode_hex_32, merkle_node_hash}

unfoldable pub side_left : Bytes
side_left = codes "left"

unfoldable pub side_right : Bytes
side_right = codes "right"

-- The next step of the proof, on the side that is due: its hash, and the steps after it.
unfoldable pub next_sibling :
    Bytes → Error → List MerkleProofStep → Result Error (Bytes × List MerkleProofStep)
next_sibling side e [] = err e
next_sibling side e (step ∷ steps) =
    if step.side /= side
    then err e
    else elim (decode_hex_32 step.hash) [ err f ↦ err f | ok sibling ↦ ok (sibling, steps) ]

module _ ⦃c : Crypto⦄ where
  -- One round of the loop: the parent of the node, and the steps that are left.
  unfoldable pub climb :
      Bytes → Bytes → ℕ → ℕ → List MerkleProofStep → Result Error (Bytes × List MerkleProofStep)
  climb tree_id node index count steps =
      if index % 2 == 0
      then (if ltb (u64 (index + 1)) count
          then elim (next_sibling side_right bad_right_sibling steps) [
            | err e ↦ err e
            | ok (sibling, rest) ↦ ok (merkle_node_hash tree_id node sibling, rest)
          ]
          else ok (node, steps))
      else elim (next_sibling side_left bad_left_sibling steps) [
        | err e ↦ err e
        | ok (sibling, rest) ↦ ok (merkle_node_hash tree_id sibling node, rest)
      ]

  -- The loop, on fuel: a count of nodes is enough, since it falls in each round.
  unfoldable pub climb_all :
      ℕ → Bytes → Bytes → ℕ → ℕ → List MerkleProofStep → Result Error (Bytes × List MerkleProofStep)
  climb_all zero tree_id node index count steps = ok (node, steps)
  climb_all (suc fuel) tree_id node index count steps =
      if leb count 1 then ok (node, steps) else elim (climb tree_id node index count steps) [
        | err e ↦ err e
        | ok (parent, rest) ↦ climb_all fuel tree_id parent (index / 2) (u64 (count + 1) / 2) rest
      ]

  abbrev pub at_root : Bytes → Bytes × List MerkleProofStep → Result Error (Unit {0})
  at_root root (node, []) = if node /= root then err merkle_root_mismatch else ok tt
  at_root root (node, step ∷ steps) = err merkle_root_mismatch

  unfoldable pub verify_merkle_proof :
      Bytes → Bytes → ℕ → ℕ → List MerkleProofStep → Bytes → Result Error (Unit {0})
  verify_merkle_proof tree_id leaf leaf_index leaf_count proof root =
      if leaf_count == 0 || leb leaf_count leaf_index
      then err bad_leaf_index
      else elim (climb_all leaf_count tree_id leaf leaf_index leaf_count proof) [
        | err e ↦ err e
        | ok reached ↦ at_root root reached
      ]
