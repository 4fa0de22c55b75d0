-- ===== src/Dag/Clash.antt =====
-- What it takes to deceive the verifier of Merkle proofs (internal/aiseal/hash.go): a round in which
-- it hashes other nodes than a tree of the generator has there, to the same hash.
use ai_po_w_unified_dag.Dag.Tree.{next_level}
use ai_po_w_unified_dag.Prelude.{
  suc, ℕ, suc, ◌+◌, ◌/◌, ◌≡◌, List, Bytes, ok, Bool-cases, ◌==◌, inl, inr, nat_eq, length, ◌⊎◌,
  get_or, [], eq_bytes_iff, bytes_eq, ◌≢◌,
}
use ai_po_w_unified_dag.Protocol.{Crypto}
use ai_po_w_unified_dag.AiSeal.Types.{MerkleProofStep}
use ai_po_w_unified_dag.AiSeal.Encoding.{merkle_node_hash}
use ai_po_w_unified_dag.AiSeal.Merkle.{climb, next_sibling, side_right, side_left}
use ai_po_w_unified_dag.AiSeal.Errors.{bad_right_sibling, bad_left_sibling}
use ai_po_w_unified_dag.Dag.Nodes.{IsNode}

module _ ⦃c : Crypto⦄ where
  -- Two different pairs of 32-byte nodes with one hash.
  pub record AreClashing (tree_id a b x y : Bytes) : Type 0 where
    pub sized : IsNode a × IsNode b × IsNode x × IsNode y
    pub same : merkle_node_hash tree_id a b ≡ merkle_node_hash tree_id x y
    pub apart : (a ≢ x) ⊎ (b ≢ y)

  -- In some round of the verifier, from a node at an index with the steps of a proof, the node and
  -- the sibling that the step gives clash with the pair that the level of the tree has there.
  pub data Clashes (tree_id : Bytes) : List Bytes → Bytes → ℕ → List MerkleProofStep → Type 0 where
    with_right :
        {nodes : List Bytes} {node : Bytes} {index : ℕ} {steps : List MerkleProofStep} (k : ℕ)
        (sibling : Bytes) (rest : List MerkleProofStep)
        → index ≡ k + k
        → next_sibling side_right bad_right_sibling steps ≡ ok (sibling, rest)
        → AreClashing tree_id node sibling (get_or nodes (k + k) []) (get_or nodes (suc (k + k)) [])
        → Clashes tree_id nodes node index steps
    with_left :
        {nodes : List Bytes} {node : Bytes} {index : ℕ} {steps : List MerkleProofStep} (k : ℕ)
        (sibling : Bytes) (rest : List MerkleProofStep)
        → index ≡ suc (k + k)
        → next_sibling side_left bad_left_sibling steps ≡ ok (sibling, rest)
        → AreClashing tree_id sibling node (get_or nodes (k + k) []) (get_or nodes (suc (k + k)) [])
        → Clashes tree_id nodes node index steps
    above :
        {nodes : List Bytes} {node : Bytes} {index : ℕ} {steps : List MerkleProofStep}
        (parent : Bytes) (rest : List MerkleProofStep)
        → climb tree_id node index (length nodes) steps ≡ ok (parent, rest)
        → Clashes tree_id (next_level tree_id nodes) parent (index / 2) rest
        → Clashes tree_id nodes node index steps

  -- Two pairs of nodes with one hash are the same pair, or they clash.
  pub split_pair :
      (tree_id a b x y : Bytes)
      → IsNode a × IsNode b × IsNode x × IsNode y
      → merkle_node_hash tree_id a b ≡ merkle_node_hash tree_id x y
      → ((a ≡ x) × (b ≡ y)) ⊎ AreClashing tree_id a b x y
  split_pair tree_id a b x y sized h = elim (Bool-cases (a == x)) [
    | inr apart ↦ inr (record {
      sized = sized;
      same = h;
      apart = inl (λ e. let k = (eq_bytes_iff a x).1 e in cc (k, apart));
    })
    | inl first ↦ elim (Bool-cases (b == y)) [
      | inr apart ↦ inr (record {
        sized = sized;
        same = h;
        apart = inr (λ e. let k = (eq_bytes_iff b y).1 e in cc (k, apart));
      })
      | inl second ↦ inl ((eq_bytes_iff a x).0 first, (eq_bytes_iff b y).0 second)
    ]
  ]
