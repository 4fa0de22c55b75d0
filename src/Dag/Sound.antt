-- ===== src/Dag/Sound.antt =====
-- A Merkle proof that the verifier (internal/aiseal/hash.go) accepts against the root of a tree of the
-- generator (cmd/unifiedDAG/main.go) is for a leaf of that tree.
use ai_po_w_unified_dag.Dag.Hash.{node_hash_same}
use ai_po_w_unified_dag.Dag.Levels.{
  get_or-next_level_pair, get_or-next_level_single, length-next_level, last_level-levels_from,
  levels_from-cons,
}
use ai_po_w_unified_dag.Dag.Tree.{next_level, last_level, levels_from, root, new_merkle_tree}
use ai_po_w_unified_dag.Prelude.{
  refl, zero, suc, ℕ, suc, ◌+◌, ◌/◌, ◌<◌, ◌≡◌, List, Bytes, arith, ok, ◌≤◌, ◌^◌, Bool-cases, ◌==◌,
  inl, u64, inr, nat_eq, length, ◌⊎◌, get_or, ◌-◌, [], eq_bytes_iff, ap, leb, ◌∙◌, bytes_eq, sym,
  ◌∷◌, subst, get_elem?, some, ◌||◌, false, All,
}
use ai_po_w_unified_dag.Prelude.Results.{Result-cases}
use ai_po_w_unified_dag.Protocol.{Crypto}
use ai_po_w_unified_dag.AiSeal.Types.{MerkleProofStep}
use ai_po_w_unified_dag.AiSeal.Merkle.{
  climb, side_right, side_left, climb_all, at_root, verify_merkle_proof,
}
use ai_po_w_unified_dag.AiSeal.Errors.{bad_right_sibling, bad_left_sibling}
use ai_po_w_unified_dag.Dag.Nodes.{IsNode, next_sibling-IsNode, get_or-IsNode, next_level-IsNode}
use ai_po_w_unified_dag.Dag.Rises.{Rises, by_right, alone, by_left, Rises-IsNode, climb-Rises}
use ai_po_w_unified_dag.Dag.Clash.{Clashes, with_right, with_left, above, split_pair}

module _ ⦃c : Crypto⦄ where
  -- If the parent stands above the node's place, then the node stands at it, or the two pairs clash.
  parent_above :
      (tree_id : Bytes) (nodes : List Bytes) (node : Bytes) (index : ℕ)
      (steps : List MerkleProofStep) (parent : Bytes)
      → All IsNode nodes
      → IsNode node
      → index < length nodes
      → Rises tree_id node index (length nodes) steps parent
      → parent ≡ get_or (next_level tree_id nodes) (index / 2) []
      → (node ≡ get_or nodes index []) ⊎ Clashes tree_id nodes node index steps
  parent_above tree_id nodes node index steps parent all n small
        (by_right k sibling rest e more from made) up =
      let half : index / 2 ≡ k = omega arith in
      let pair =
        get_or-next_level_pair tree_id nodes k more
        ∙ node_hash_same tree_id (get_or nodes (k + k) []) (get_or nodes (suc (k + k)) []) in
      elim (split_pair tree_id node sibling (get_or nodes (k + k) [])
        (get_or nodes (suc (k + k)) [])
        (
          n,
          next_sibling-IsNode side_right bad_right_sibling steps from,
          get_or-IsNode nodes (k + k) all (omega arith),
          get_or-IsNode nodes (suc (k + k)) all (omega arith),
        )
        (sym made ∙ (up ∙ (ap (λ i. get_or (next_level tree_id nodes) i []) half ∙ pair)))) [
          | inl (same, other) ↦ inl (rw e same)
          | inr found ↦ inr (with_right k sibling rest e from found)
        ]
  parent_above tree_id nodes node index steps parent all n small (alone k e last made) up =
      let half : index / 2 ≡ k = omega arith in
      inl (
        sym made
        ∙ (up
            ∙ (ap (λ i. get_or (next_level tree_id nodes) i []) half
                ∙ rw e (get_or-next_level_single tree_id nodes k (omega arith)))))
  parent_above tree_id nodes node index steps parent all n small
        (by_left k sibling rest e from made) up =
      let half : index / 2 ≡ k = omega arith in
      let pair =
        get_or-next_level_pair tree_id nodes k (omega arith)
        ∙ node_hash_same tree_id (get_or nodes (k + k) []) (get_or nodes (suc (k + k)) []) in
      elim (split_pair tree_id sibling node (get_or nodes (k + k) [])
        (get_or nodes (suc (k + k)) [])
        (
          next_sibling-IsNode side_left bad_left_sibling steps from,
          n,
          get_or-IsNode nodes (k + k) all (omega arith),
          get_or-IsNode nodes (suc (k + k)) all (omega arith),
        )
        (sym made ∙ (up ∙ (ap (λ i. get_or (next_level tree_id nodes) i []) half ∙ pair)))) [
          | inl (other, same) ↦ inl (rw e same)
          | inr found ↦ inr (with_left k sibling rest e from found)
        ]

  climb_all_sound :
      (fuel : ℕ) (tree_id : Bytes) (nodes : List Bytes) (node : Bytes) (index : ℕ)
      (steps : List MerkleProofStep) {top : Bytes} {rest : List MerkleProofStep}
      → All IsNode nodes
      → IsNode node
      → index < length nodes
      → length nodes ≤ fuel
      → length nodes < 2 ^ 64 - 1
      → climb_all fuel tree_id node index (length nodes) steps ≡ ok (top, rest)
      → top ≡ get_or (last_level (levels_from fuel tree_id nodes)) 0 []
      → (node ≡ get_or nodes index []) ⊎ Clashes tree_id nodes node index steps
  unfolding climb_all levels_from last_level
  climb_all_sound zero tree_id nodes node index steps all n small enough bound h at_top =
      absurd (omega arith)
  climb_all_sound (suc fuel) tree_id nodes node index steps {top} {rest} all n small enough bound h
        at_top =
      elim (Bool-cases (leb (length nodes) 1)) [
        | inl one ↦ inl (
            let only : length nodes ≡ 1 = ground arith in
            let first : index ≡ 0 = omega arith in
            let k = rw (one, climb_all) at h in
            let level : levels_from (suc fuel) tree_id nodes ≡ nodes ∷ [] = rw (one, levels_from) in
            let top_is = at_top ∙ ap (λ l. get_or (last_level l) 0 []) level in
            let same : node ≡ top = cc k in
            same ∙ (top_is ∙ ap (λ i. get_or nodes i []) (sym first)))
        | inr many ↦ elim (Result-cases (climb tree_id node index (length nodes) steps)) [
          | inr (x, bad) ↦ let k = rw (many, climb_all, bad) at h in cc
          | inl ((parent, after), good) ↦
              let k = rw (many, climb_all, good) at h in
              let size = length-next_level tree_id nodes in
              let next : u64 (length nodes + 1) / 2 ≡ length (next_level tree_id nodes) =
                omega (arith, size) in
              let rises =
                climb-Rises tree_id node index (length nodes) steps small (omega arith) good in
              let over =
                climb_all_sound fuel tree_id (next_level tree_id nodes) parent (index / 2) after
                  (next_level-IsNode tree_id nodes all)
                  (Rises-IsNode tree_id node index (length nodes) steps parent n rises)
                  (ground (arith, size)) (ground (arith, size)) (ground (arith, size))
                  (subst (λ n. climb_all fuel tree_id parent (index / 2) n after ≡ ok (top, rest))
                    next k)
                  (at_top
                    ∙ ap (λ l. get_or l 0 [])
                        (last_level-levels_from fuel tree_id nodes (ground arith))) in
              elim over [
                | inr found ↦ inr (above parent after good found)
                | inl up ↦ parent_above tree_id nodes node index steps parent all n small rises up
              ]
        ]
      ]

  get_or-get_elem? :
      (nodes : List Bytes) (i : ℕ) → i < length nodes → get_elem? nodes i ≡ some (get_or nodes i [])
  get_or-get_elem? [] i h = absurd (omega arith)
  get_or-get_elem? (x ∷ xs) zero h = refl
  get_or-get_elem? (x ∷ xs) (suc i) h = get_or-get_elem? xs i (omega arith)

  pub root-last_level :
      (tree_id : Bytes) (leaves : List Bytes)
      → 0 < length leaves
      → root (new_merkle_tree tree_id leaves)
        ≡ get_or (last_level (levels_from (length leaves) tree_id leaves)) 0 []
  unfolding root new_merkle_tree
  root-last_level tree_id leaves h =
      let some_leaf : (length leaves == 0) ≡ false = ground arith in
      let (upper, e) = levels_from-cons (length leaves) tree_id leaves in
      let some_level : (length (levels_from (length leaves) tree_id leaves) == 0) ≡ false =
        rw e (ground arith) in
      rw (some_leaf, new_merkle_tree, root) (rw some_level)

  at_root-ok :
      (tree_root : Bytes) (reached : Bytes × List MerkleProofStep)
      → at_root tree_root reached ≡ ok tt
      → reached.0 ≡ tree_root
  at_root-ok tree_root (node, []) h = (eq_bytes_iff node tree_root).0 (ground arith)
  at_root-ok tree_root (node, step ∷ steps) h = cc

  -- A proof that the verifier accepts for a leaf at an index, against the root of a tree of the
  -- generator, is for the leaf that the tree has there; or else, in a round of the verifier, the
  -- pair that it hashed, of its node and the proof's sibling, is another pair of 32-byte nodes than
  -- the tree has there and has the same hash. The leaves have 32 bytes, and there are less than
  -- 2 ^ 64 - 1 of them.
  pub verify_merkle_proof_sound :
      (tree_id leaf : Bytes) (leaves : List Bytes) (index : ℕ) (proof : List MerkleProofStep)
      → All IsNode leaves
      → IsNode leaf
      → length leaves < 2 ^ 64 - 1
      → verify_merkle_proof tree_id leaf index
          (length leaves)
          proof
          (root (new_merkle_tree tree_id leaves))
        ≡ ok tt
      → (get_elem? leaves index ≡ some leaf) ⊎ Clashes tree_id leaves leaf index proof
  unfolding verify_merkle_proof
  verify_merkle_proof_sound tree_id leaf leaves index proof all n bound h =
      elim (Bool-cases (length leaves == 0 || leb (length leaves) index)) [
        | inl out ↦ let k = rw out at h in cc
        | inr within ↦
            let small : index < length leaves = ground arith in
            elim (Result-cases
              (climb_all (length leaves) tree_id leaf index (length leaves) proof)) [
                | inr (x, bad) ↦ let k = rw (within, bad, verify_merkle_proof) at h in cc
                | inl ((top, rest), good) ↦
                    let k = rw (within, good, verify_merkle_proof) at h in
                    elim (climb_all_sound (length leaves) tree_id leaves leaf index proof all n
                      small (omega arith) bound good
                      (at_root-ok (root (new_merkle_tree tree_id leaves)) (top, rest) k
                        ∙ root-last_level tree_id leaves (omega arith))) [
                          | inl same ↦ inl (rw same (get_or-get_elem? leaves index small))
                          | inr found ↦ inr found
                        ]
              ]
      ]
