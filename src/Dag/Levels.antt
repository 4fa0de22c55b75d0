-- ===== src/Dag/Levels.antt =====
-- The levels of a MerkleTree: where the parent of a node stands (cmd/unifiedDAG/main.go).
use ai_po_w_unified_dag.Prelude.{
  ℕ, zero, suc, ◌+◌, ◌/◌, ◌<◌, ◌≡◌, List, [], ◌∷◌, Bytes, length, get_or, arith, refl, leb,
  Bool-cases, ap, ◌∙◌, false, inl, inr, sym, true,
}
use ai_po_w_unified_dag.Protocol.{Crypto}
use ai_po_w_unified_dag.Dag.Hash.{merkle_node_hash}
use ai_po_w_unified_dag.Dag.Tree.{next_level, levels_from, last_level}

module _ ⦃c : Crypto⦄ where
  pub length-next_level :
      (tree_id : Bytes) (nodes : List Bytes)
      → length (next_level tree_id nodes) ≡ (length nodes + 1) / 2
  unfolding next_level
  length-next_level tree_id [] = omega arith
  length-next_level tree_id (a ∷ []) = omega arith
  length-next_level tree_id (a ∷ b ∷ rest) = omega (arith, length-next_level tree_id rest)

  -- Two nodes that stand side by side have their hash above them.
  pub get_or-next_level_pair :
      (tree_id : Bytes) (nodes : List Bytes) (k : ℕ)
      → k + k + 1 < length nodes
      → get_or (next_level tree_id nodes) k []
        ≡ merkle_node_hash tree_id (get_or nodes (k + k) []) (get_or nodes (suc (k + k)) [])
  unfolding next_level
  get_or-next_level_pair tree_id [] k h = absurd (omega arith)
  get_or-next_level_pair tree_id (a ∷ []) k h = absurd (omega arith)
  get_or-next_level_pair tree_id (a ∷ b ∷ rest) zero h = refl
  get_or-next_level_pair tree_id (a ∷ b ∷ rest) (suc k) h =
      let e : suc k + suc k ≡ suc (suc (k + k)) = omega arith in
      rw e (get_or-next_level_pair tree_id rest k (omega arith))

  -- A last node without a partner goes up as it is.
  pub get_or-next_level_single :
      (tree_id : Bytes) (nodes : List Bytes) (k : ℕ)
      → k + k + 1 ≡ length nodes
      → get_or (next_level tree_id nodes) k [] ≡ get_or nodes (k + k) []
  unfolding next_level
  get_or-next_level_single tree_id [] k h = absurd (omega arith)
  get_or-next_level_single tree_id (a ∷ []) zero h = refl
  get_or-next_level_single tree_id (a ∷ []) (suc k) h = absurd (omega arith)
  get_or-next_level_single tree_id (a ∷ b ∷ rest) zero h = absurd (omega arith)
  get_or-next_level_single tree_id (a ∷ b ∷ rest) (suc k) h =
      let e : suc k + suc k ≡ suc (suc (k + k)) = omega arith in
      rw e (get_or-next_level_single tree_id rest k (omega arith))

  -- The lowest level is the nodes themselves.
  pub levels_from-cons :
      (fuel : ℕ) (tree_id : Bytes) (nodes : List Bytes)
      → (above : List (List Bytes)) × (levels_from fuel tree_id nodes ≡ nodes ∷ above)
  unfolding levels_from
  levels_from-cons zero tree_id nodes = ([], refl)
  levels_from-cons (suc fuel) tree_id nodes = elim (Bool-cases (leb (length nodes) 1)) [
    | inl few ↦ ([], rw few)
    | inr many ↦ (levels_from fuel tree_id (next_level tree_id nodes), rw many)
  ]

  pub levels_from_one :
      (fuel : ℕ) (tree_id : Bytes) (nodes : List Bytes)
      → leb (length nodes) 1 ≡ true
      → levels_from (suc fuel) tree_id nodes ≡ nodes ∷ []
  unfolding levels_from
  levels_from_one fuel tree_id nodes one = rw (one, levels_from)

  pub levels_from_step :
      (fuel : ℕ) (tree_id : Bytes) (nodes : List Bytes)
      → 1 < length nodes
      → levels_from (suc fuel) tree_id nodes
        ≡ nodes ∷ levels_from fuel tree_id (next_level tree_id nodes)
  unfolding levels_from
  levels_from_step fuel tree_id nodes h =
      let many : leb (length nodes) 1 ≡ false = ground arith in rw (many, levels_from)

  -- The top of a tree of more than one node is the top of the tree above them.
  pub last_level-levels_from :
      (fuel : ℕ) (tree_id : Bytes) (nodes : List Bytes)
      → 1 < length nodes
      → last_level (levels_from (suc fuel) tree_id nodes)
        ≡ last_level (levels_from fuel tree_id (next_level tree_id nodes))
  unfolding last_level
  last_level-levels_from fuel tree_id nodes h =
      let (above, e) = levels_from-cons fuel tree_id (next_level tree_id nodes) in
      ap last_level (levels_from_step fuel tree_id nodes h)
      ∙ (ap (λ l. last_level (nodes ∷ l)) e ∙ ap last_level (sym e))
