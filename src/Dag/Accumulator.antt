-- ===== src/Dag/Accumulator.antt =====
-- cmd/unifiedDAG/main.go: MerkleAccumulator, which computes a root while leaves stream by. The two
-- arrays of 64 entries are functions; no index of 64 or more is met below 2 ^ 64 leaves.
use ai_po_w_unified_dag.Prelude.{
  ℕ, zero, suc, ◌+◌, ◌/◌, ◌%◌, List, [], ◌∷◌, Bool, true, false, Option, none, some, Bytes,
  if◌then◌else◌, u64, ◌==◌, nat_eq,
}
use ai_po_w_unified_dag.Protocol.{Crypto}
use ai_po_w_unified_dag.Dag.Hash.{merkle_node_hash, merkle_empty_hash}

pub record MerkleAccumulator : Type 0 where
  pub tree_id : Bytes
  pub count : ℕ  -- uint64
  pub stack : ℕ → Bytes  -- [64][32]byte
  pub filled : ℕ → Bool  -- [64]bool

-- `a[i] = v`
abbrev pub set_at {ℓ} : {A : Type ℓ} → (ℕ → A) → ℕ → A → ℕ → A
set_at a i v j = if i == j then v else a j

unfoldable pub new_merkle_accumulator : Bytes → MerkleAccumulator
new_merkle_accumulator tree_id = record {
  tree_id = tree_id;
  count = 0;
  stack = λ i. [];
  filled = λ i. false;
}

-- `len(m.stack)`
abbrev pub levels : ℕ
levels = 64

module _ ⦃c : Crypto⦄ where
  -- The loop of AddLeaf and the write after it, on fuel: each round halves `c`.
  unfoldable pub carry :
      ℕ → Bytes → (ℕ → Bytes) → (ℕ → Bool) → ℕ → ℕ → Bytes → (ℕ → Bytes) × (ℕ → Bool)
  carry zero tree_id stack filled level c node = (stack, filled)
  carry (suc fuel) tree_id stack filled level c node =
      let rest =
        carry fuel tree_id stack (set_at filled level false) (level + 1) (c / 2)
          (merkle_node_hash tree_id (stack level) node) in
      if c % 2 == 1 then rest else (set_at stack level node, set_at filled level true)

  unfoldable pub add_leaf : MerkleAccumulator → Bytes → MerkleAccumulator
  add_leaf m leaf =
      let (stack, filled) = carry levels m.tree_id m.stack m.filled 0 m.count leaf in
      record { tree_id = m.tree_id; count = u64 (m.count + 1); stack = stack; filled = filled }

  -- The loop of Root over the levels: `none` until a level is filled.
  unfoldable pub fold_levels :
      ℕ → Bytes → (ℕ → Bytes) → (ℕ → Bool) → ℕ → Option Bytes → Option Bytes
  fold_levels zero tree_id stack filled level root = root
  fold_levels (suc left) tree_id stack filled level root =
      fold_levels left tree_id stack filled (level + 1) (
        if filled level
        then elim root [
          | none ↦ some (stack level)
          | some r ↦ some (merkle_node_hash tree_id (stack level) r)
        ]
        else root)

  unfoldable pub accumulated_root : MerkleAccumulator → Bytes
  accumulated_root m =
      if m.count == 0
      then merkle_empty_hash m.tree_id
      else elim (fold_levels levels m.tree_id m.stack m.filled 0 none) [ none ↦ [] | some r ↦ r ]

  -- AddLeaf for each leaf of a stream.
  unfoldable pub add_leaves : MerkleAccumulator → List Bytes → MerkleAccumulator
  add_leaves m [] = m
  add_leaves m (leaf ∷ leaves) = add_leaves (add_leaf m leaf) leaves
