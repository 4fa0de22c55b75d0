-- ===== src/Dag/Rises.antt =====
-- One round of the verifier of Merkle proofs (internal/aiseal/hash.go): what the parent is made of.
use ai_po_w_unified_dag.Prelude.{
  suc, ℕ, suc, ◌+◌, ◌/◌, ◌<◌, ◌≡◌, List, Bytes, arith, ok, ◌≤◌, ◌^◌, Bool-cases, ◌%◌, ◌==◌, inl,
  ltb, u64, inr, nat_eq, bytes_eq,
}
use ai_po_w_unified_dag.Prelude.Results.{Result-cases}
use ai_po_w_unified_dag.Protocol.{Crypto}
use ai_po_w_unified_dag.AiSeal.Types.{MerkleProofStep}
use ai_po_w_unified_dag.AiSeal.Encoding.{merkle_node_hash}
use ai_po_w_unified_dag.AiSeal.Merkle.{climb, next_sibling, side_right, side_left}
use ai_po_w_unified_dag.AiSeal.Errors.{bad_right_sibling, bad_left_sibling}
use ai_po_w_unified_dag.Dag.Nodes.{IsNode, merkle_node_hash-IsNode}

module _ ⦃c : Crypto⦄ where
  -- The parent that a round reaches: by a right sibling, alone, or by a left sibling.
  pub data Rises (tree_id node : Bytes) (index count : ℕ) (steps : List MerkleProofStep)
      (parent : Bytes) : Type 0 where
    by_right :
        (k : ℕ) (sibling : Bytes) (rest : List MerkleProofStep)
        → index ≡ k + k
        → k + k + 1 < count
        → next_sibling side_right bad_right_sibling steps ≡ ok (sibling, rest)
        → parent ≡ merkle_node_hash tree_id node sibling
        → Rises tree_id node index count steps parent
    alone :
        (k : ℕ)
        → index ≡ k + k
        → count ≤ k + k + 1
        → parent ≡ node
        → Rises tree_id node index count steps parent
    by_left :
        (k : ℕ) (sibling : Bytes) (rest : List MerkleProofStep)
        → index ≡ suc (k + k)
        → next_sibling side_left bad_left_sibling steps ≡ ok (sibling, rest)
        → parent ≡ merkle_node_hash tree_id sibling node
        → Rises tree_id node index count steps parent

  pub Rises-IsNode :
      (tree_id node : Bytes) (index count : ℕ) (steps : List MerkleProofStep) (parent : Bytes)
      → IsNode node
      → Rises tree_id node index count steps parent
      → IsNode parent
  Rises-IsNode tree_id node index count steps parent n (by_right k sibling rest e more from made) =
      rw made (merkle_node_hash-IsNode tree_id node sibling)
  Rises-IsNode tree_id node index count steps parent n (alone k e last made) = rw made n
  Rises-IsNode tree_id node index count steps parent n (by_left k sibling rest e from made) =
      rw made (merkle_node_hash-IsNode tree_id sibling node)

  pub climb-Rises :
      (tree_id node : Bytes) (index count : ℕ) (steps : List MerkleProofStep) {parent : Bytes}
      {rest : List MerkleProofStep}
      → index < count
      → count < 2 ^ 64
      → climb tree_id node index count steps ≡ ok (parent, rest)
      → Rises tree_id node index count steps parent
  unfolding climb
  climb-Rises tree_id node index count steps {parent} {rest} small bound h =
      elim (Bool-cases (index % 2 == 0)) [
        | inl even ↦
            let e : index ≡ index / 2 + index / 2 = ground arith in
            elim (Bool-cases (ltb (u64 (index + 1)) count)) [
              | inl more ↦ elim (Result-cases (next_sibling side_right bad_right_sibling steps)) [
                | inl ((sibling, after), good) ↦
                    let k = rw (even, more, good, climb) at h in
                    by_right (index / 2) sibling after e (ground arith) good (cc k)
                | inr (x, bad) ↦ let k = rw (even, more, bad, climb) at h in cc
              ]
              | inr last ↦
                  let k = rw (even, last, climb) at h in alone (index / 2) e (ground arith) (cc k)
            ]
        | inr odd ↦ elim (Result-cases (next_sibling side_left bad_left_sibling steps)) [
          | inl ((sibling, after), good) ↦
              let k = rw (odd, good, climb) at h in
              by_left (index / 2) sibling after (ground arith) good (cc k)
          | inr (x, bad) ↦ let k = rw (odd, bad, climb) at h in cc
        ]
      ]
