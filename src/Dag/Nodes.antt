-- ===== src/Dag/Nodes.antt =====
-- The nodes of the trees of cmd/unifiedDAG/main.go and internal/aiseal/hash.go have 32 bytes.
use ai_po_w_unified_dag.Prelude.{
  ℕ, zero, suc, ◌≤◌, ◌<◌, ◌≡◌, List, [], ◌∷◌, ◌++◌, Bytes, ok, length, take, replicate, All, get_or,
  refl, arith, Bool-cases, inl, inr, ◌/=◌, nat_eq, bytes_eq, ◌∙◌, ap,
}
use ai_po_w_unified_dag.Prelude.Results.{Result-cases}
use ai_po_w_unified_dag.Protocol.{Crypto}
use ai_po_w_unified_dag.AiSeal.Types.{MerkleProofStep}
use ai_po_w_unified_dag.AiSeal.Errors.{Error}
use ai_po_w_unified_dag.AiSeal.Encoding.{
  copy_32, decode_hex_32, decode_hex_bytes, tagged_hash, merkle_node_hash,
}
use ai_po_w_unified_dag.AiSeal.Merkle.{next_sibling}
use ai_po_w_unified_dag.Dag.Hash.{node_hash_same}
use ai_po_w_unified_dag.Dag.Tree.{next_level}

-- A value of type [32]byte.
abbrev pub IsNode : Bytes → Type 0
IsNode b = length b ≡ 32

pub length-take_padded : (n m : ℕ) (b : Bytes) → n ≤ m → length (take n (b ++ replicate m 0)) ≡ n
length-take_padded zero m b h = refl
length-take_padded (suc n) zero b h = absurd (omega arith)
length-take_padded (suc n) (suc m) [] h = omega (arith, length-take_padded n m [] (omega arith))
length-take_padded (suc n) (suc m) (x ∷ xs) h =
    omega (arith, length-take_padded n (suc m) xs (omega arith))

copy_32-IsNode : (b : Bytes) → IsNode (copy_32 b)
unfolding copy_32
copy_32-IsNode b = length-take_padded 32 32 b (omega arith)

decode_hex_32-IsNode : (text : Bytes) {b : Bytes} → decode_hex_32 text ≡ ok b → IsNode b
unfolding decode_hex_32
decode_hex_32-IsNode text {b} h = elim (Result-cases (decode_hex_bytes text)) [
  | inr (e, bad) ↦ let k = rw (bad, decode_hex_32) at h in cc
  | inl (raw, good) ↦ elim (Bool-cases (length raw /= 32)) [
    | inl off ↦ let k = rw (good, decode_hex_32, off) at h in cc
    | inr fits ↦
        let k = rw (good, decode_hex_32, fits) at h in
        let same : copy_32 raw ≡ b = cc k in rw (← same) (copy_32-IsNode raw)
  ]
]

-- The hash of a step of a proof.
pub next_sibling-IsNode :
    (side : Bytes) (e : Error) (steps : List MerkleProofStep) {sibling : Bytes}
    {rest : List MerkleProofStep}
    → next_sibling side e steps ≡ ok (sibling, rest)
    → IsNode sibling
unfolding next_sibling
next_sibling-IsNode side e [] h = cc
next_sibling-IsNode side e (step ∷ steps) {sibling} {rest} h =
    elim (Bool-cases (step.side /= side)) [
      | inl off ↦ let k = rw off at h in cc
      | inr on ↦ elim (Result-cases (decode_hex_32 step.hash)) [
        | inr (f, bad) ↦ let k = rw (on, bad, next_sibling) at h in cc
        | inl (b, good) ↦
            let k = rw (on, good, next_sibling) at h in
            let same : b ≡ sibling = cc k in rw (← same) (decode_hex_32-IsNode step.hash good)
      ]
    ]

pub get_or-IsNode :
    (nodes : List Bytes) (i : ℕ) → All IsNode nodes → i < length nodes → IsNode (get_or nodes i [])
get_or-IsNode [] i h k = absurd (omega arith)
get_or-IsNode (x ∷ xs) zero h k = h.0
get_or-IsNode (x ∷ xs) (suc i) h k = get_or-IsNode xs i h.1 (omega arith)

module _ ⦃c : Crypto⦄ where
  pub tagged_hash-IsNode : (domain written : Bytes) → IsNode (tagged_hash domain written)
  unfolding tagged_hash
  tagged_hash-IsNode domain written = copy_32-IsNode _

  pub merkle_node_hash-IsNode :
      (tree_id left right : Bytes) → IsNode (merkle_node_hash tree_id left right)
  unfolding merkle_node_hash
  merkle_node_hash-IsNode tree_id left right = tagged_hash-IsNode _ _

  pub next_level-IsNode :
      (tree_id : Bytes) (nodes : List Bytes)
      → All IsNode nodes
      → All IsNode (next_level tree_id nodes)
  unfolding next_level
  next_level-IsNode tree_id [] h = tt
  next_level-IsNode tree_id (a ∷ []) h = h
  next_level-IsNode tree_id (a ∷ b ∷ rest) (ha, (hb, h)) = (
    ap length (node_hash_same tree_id a b) ∙ merkle_node_hash-IsNode tree_id a b,
    next_level-IsNode tree_id rest h,
  )
