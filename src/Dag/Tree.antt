-- ===== src/Dag/Tree.antt =====
-- cmd/unifiedDAG/main.go: MerkleTree, with NewMerkleTree, Root and Proof.
use ai_po_w_unified_dag.Prelude.{
  ℕ, zero, suc, ◌+◌, ◌-◌, ◌/◌, ◌%◌, List, [], ◌∷◌, ◌++◌, Option, none, some, Bytes, if◌then◌else◌,
  ltb, leb, length, get_or, ◌==◌, nat_eq,
}
use ai_po_w_unified_dag.Protocol.{Crypto}
use ai_po_w_unified_dag.AiSeal.Types.{MerkleProofStep}
use ai_po_w_unified_dag.AiSeal.Merkle.{side_left, side_right}
use ai_po_w_unified_dag.Dag.Hash.{merkle_node_hash, merkle_empty_hash, fmt_hash}

pub record MerkleTree : Type 0 where
  pub tree_id : Bytes
  pub levels : List (List Bytes)

-- A step as Proof writes it.
abbrev pub proof_step : Bytes → Bytes → MerkleProofStep
proof_step side node = record { side = side; hash = 48 ∷ 120 ∷ fmt_hash node }

-- What the loop of Proof appends at a level.
unfoldable pub sibling_step : List Bytes → ℕ → List MerkleProofStep
sibling_step nodes index =
    if index % 2 == 0
    then (if ltb (index + 1) (length nodes)
        then proof_step side_right (get_or nodes (index + 1) []) ∷ []
        else [])
    else proof_step side_left (get_or nodes (index - 1) []) ∷ []

-- The loop of Proof over all levels but the last.
unfoldable pub proof_from : List (List Bytes) → ℕ → List MerkleProofStep
proof_from [] index = []
proof_from (nodes ∷ []) index = []
proof_from (nodes ∷ next ∷ levels) index =
    sibling_step nodes index ++ proof_from (next ∷ levels) (index / 2)

unfoldable pub last_level : List (List Bytes) → List Bytes
last_level [] = []
last_level (nodes ∷ []) = nodes
last_level (nodes ∷ next ∷ levels) = last_level (next ∷ levels)

unfoldable pub count : MerkleTree → ℕ
count t = length (get_or t.levels 0 [])

unfoldable pub proof : MerkleTree → ℕ → Option (List MerkleProofStep)
proof t leaf_index =
    if length t.levels == 0
    then none
    else if leb (length (get_or t.levels 0 [])) leaf_index
    then none
    else some (proof_from t.levels leaf_index)

module _ ⦃c : Crypto⦄ where
  -- The level above: pairs are hashed, and a node that is left over goes up as it is.
  unfoldable pub next_level : Bytes → List Bytes → List Bytes
  next_level tree_id [] = []
  next_level tree_id (a ∷ []) = a ∷ []
  next_level tree_id (a ∷ b ∷ rest) = merkle_node_hash tree_id a b ∷ next_level tree_id rest

  -- The loop of NewMerkleTree, on fuel: the number of nodes is enough.
  unfoldable pub levels_from : ℕ → Bytes → List Bytes → List (List Bytes)
  levels_from zero tree_id nodes = nodes ∷ []
  levels_from (suc fuel) tree_id nodes =
      let above = levels_from fuel tree_id (next_level tree_id nodes) in
      if leb (length nodes) 1 then nodes ∷ [] else nodes ∷ above

  unfoldable pub new_merkle_tree : Bytes → List Bytes → MerkleTree
  new_merkle_tree tree_id leaves = record {
    tree_id = tree_id;
    levels = if length leaves == 0 then [] else levels_from (length leaves) tree_id leaves;
  }

  unfoldable pub root : MerkleTree → Bytes
  root t =
      if length t.levels == 0
      then merkle_empty_hash t.tree_id
      else get_or (last_level t.levels) 0 []
