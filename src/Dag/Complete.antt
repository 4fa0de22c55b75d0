-- ===== src/Dag/Complete.antt =====
-- The proofs that a MerkleTree makes (cmd/unifiedDAG/main.go) are accepted by the verifier
-- (internal/aiseal/hash.go).
use ai_po_w_unified_dag.Dag.Nodes.{length-take_padded}
use ai_po_w_unified_dag.Dag.Sound.{root-last_level}
use ai_po_w_unified_dag.Prelude.{
  refl, zero, suc, ℕ, ok, true, false, length, get_or, take, replicate, arith, nat_eq, bytes_eq,
  Bytes, ◌∷◌, ◌≡◌, All, ◌<◌, ◌%◌, ◌++◌, ◌==◌, [], ap, All-append, eq_bytes, List, ◌^◌, eq_bytes_iff,
  ◌-◌, ◌/◌, Bool-cases, inl, ◌+◌, ltb, inr, ◌∙◌, ◌≤◌, u64, sym, get_elem?, some, leb, ◌||◌,
}
use ai_po_w_unified_dag.Go.Hex.{
  encode_to_string, IsPlain, encode_to_string-IsPlain, decode_string-encode_to_string,
  length-encode_to_string,
}
use ai_po_w_unified_dag.Go.Text.{trim_space, trim_prefix_2, trim_space-IsPlain}
use ai_po_w_unified_dag.Protocol.{Crypto}
use ai_po_w_unified_dag.AiSeal.Errors.{Error, bad_right_sibling, bad_left_sibling}
use ai_po_w_unified_dag.AiSeal.Types.{MerkleProofStep}
use ai_po_w_unified_dag.AiSeal.Encoding.{copy_32, decode_hex_bytes, decode_hex_32}
use ai_po_w_unified_dag.AiSeal.Merkle.{
  next_sibling, climb, side_left, side_right, climb_all, verify_merkle_proof,
}
use ai_po_w_unified_dag.AiSeal.Encoding
use ai_po_w_unified_dag.Dag.Hash.{
  fmt_hash, merkle_node_hash, blake3_hash_tagged, finalize_hash, node_hash_same,
}
use ai_po_w_unified_dag.Dag.Tree.{
  proof_step, sibling_step, next_level, proof_from, last_level, proof, levels_from, new_merkle_tree,
  root,
}
use ai_po_w_unified_dag.Dag.Levels.{
  get_or-next_level_pair, get_or-next_level_single, length-next_level, levels_from-cons,
  levels_from_step, levels_from_one,
}

-- The 32 bytes of a hash.
abbrev pub IsHash : Bytes → Type 0
IsHash b = (length b ≡ 32) × All (λ v. v < 256) b

take-append : (b more : Bytes) (n : ℕ) → length b ≡ n → take n (b ++ more) ≡ b
take-append [] [] zero h = refl
take-append [] (x ∷ xs) zero h = refl
take-append [] more (suc n) h = absurd (omega arith)
take-append (x ∷ xs) more zero h = absurd (omega arith)
take-append (x ∷ xs) more (suc n) h = ap (◌∷◌ x) (take-append xs more n (omega arith))

trim_prefix_2-IsPlain : (s : Bytes) → All IsPlain s → trim_prefix_2 48 88 s ≡ s
unfolding trim_prefix_2
trim_prefix_2-IsPlain [] h = refl
trim_prefix_2-IsPlain (a ∷ []) h = refl
trim_prefix_2-IsPlain (a ∷ b ∷ rest) (ha, (hb, h)) = ground arith

some_bytes : (s : Bytes) (n : ℕ) → length s ≡ suc n → (s == []) ≡ false
unfolding eq_bytes
some_bytes [] n h = absurd (omega arith)
some_bytes (x ∷ xs) n h = refl

decode_hex_bytes-encode_to_string :
    (b : Bytes) → IsHash b → decode_hex_bytes (48 ∷ 120 ∷ encode_to_string b) ≡ ok b
unfolding decode_hex_bytes trim_prefix_2
decode_hex_bytes-encode_to_string b (n, h) =
    let plain = encode_to_string-IsPlain b h in
    let trimmed : trim_space (48 ∷ 120 ∷ encode_to_string b) ≡ 48 ∷ 120 ∷ encode_to_string b =
      trim_space-IsPlain (48 ∷ 120 ∷ encode_to_string b)
        ((omega arith, omega arith, refl), ((omega arith, omega arith, refl), plain)) in
    let size : length (encode_to_string b) ≡ 64 = omega (arith, length-encode_to_string b) in
    let even : (length (encode_to_string b) % 2 == 0) ≡ true = rw size (ground arith) in
    rw (
      trimmed,
      decode_hex_bytes,
      trim_prefix_2-IsPlain (encode_to_string b) plain,
      some_bytes (encode_to_string b) 63 size,
      even,
      decode_string-encode_to_string b h,
    )

-- A hash that is written in hexadecimal after "0x" is read back.
decode_hex_32-fmt_hash : (b : Bytes) → IsHash b → decode_hex_32 (48 ∷ 120 ∷ fmt_hash b) ≡ ok b
unfolding decode_hex_32 fmt_hash copy_32
decode_hex_32-fmt_hash b h =
    rw (decode_hex_bytes-encode_to_string b h, decode_hex_32, h.0)
      (ap ok (take-append b (replicate 32 0) 32 h.0))

next_sibling-proof_step :
    (side : Bytes) (e : Error) (node : Bytes) (rest : List MerkleProofStep)
    → IsHash node
    → next_sibling side e (proof_step side node ∷ rest) ≡ ok (node, rest)
unfolding next_sibling
next_sibling-proof_step side e node rest h =
    let same : (side == side) ≡ true = (eq_bytes_iff side side).1 refl in
    rw (same, decode_hex_32-fmt_hash node h)

get_or-IsHash :
    (nodes : List Bytes) (i : ℕ) → All IsHash nodes → i < length nodes → IsHash (get_or nodes i [])
get_or-IsHash [] i h k = absurd (omega arith)
get_or-IsHash (x ∷ xs) zero h k = h.0
get_or-IsHash (x ∷ xs) (suc i) h k = get_or-IsHash xs i h.1 (omega arith)

-- BLAKE3 puts out bytes.
abbrev pub PutsOutBytes : Crypto → Type 0
PutsOutBytes c = (b : Bytes) → All (λ v. v < 256) (c.blake3 b)

All-take : (n : ℕ) (b : Bytes) → All (λ v. v < 256) b → All (λ v. v < 256) (take n b)
All-take zero b h = tt
All-take (suc n) [] h = tt
All-take (suc n) (x ∷ xs) h = (h.0, All-take n xs h.1)

zeros : (n : ℕ) → All (λ v. v < 256) (replicate n 0)
zeros zero = tt
zeros (suc n) = (omega arith, zeros n)

module _ ⦃c : Crypto⦄ where
  merkle_node_hash-IsHash :
      (tree_id a b : Bytes) → PutsOutBytes c → IsHash (merkle_node_hash tree_id a b)
  unfolding merkle_node_hash blake3_hash_tagged finalize_hash
  merkle_node_hash-IsHash tree_id a b p = (
    length-take_padded 32 32 _ (omega arith),
    All-take 32 _ (All-append (λ v. v < 256) _ (replicate 32 0) (p _) (zeros 32)),
  )

  next_level-IsHash :
      (tree_id : Bytes) (nodes : List Bytes)
      → PutsOutBytes c
      → All IsHash nodes
      → All IsHash (next_level tree_id nodes)
  unfolding next_level
  next_level-IsHash tree_id [] p h = tt
  next_level-IsHash tree_id (a ∷ []) p h = h
  next_level-IsHash tree_id (a ∷ b ∷ rest) p h =
      (merkle_node_hash-IsHash tree_id a b p, next_level-IsHash tree_id rest p h.1.1)

  -- The parent of a pair, as the verifier hashes it.
  above_pair :
      (tree_id : Bytes) (nodes : List Bytes) (k left right : ℕ)
      → left ≡ k + k
      → right ≡ suc (k + k)
      → right < length nodes
      → get_or (next_level tree_id nodes) k []
        ≡ Encoding.merkle_node_hash tree_id (get_or nodes left []) (get_or nodes right [])
  above_pair tree_id nodes k left right el er h =
      rw (el, er)
        (get_or-next_level_pair tree_id nodes k (omega arith)
          ∙ node_hash_same tree_id (get_or nodes (k + k) []) (get_or nodes (suc (k + k)) []))

  -- The verifier's round, on the step that the generator wrote for it.
  climb-sibling_step :
      (tree_id : Bytes) (nodes : List Bytes) (index : ℕ) (more : List MerkleProofStep)
      → All IsHash nodes
      → index < length nodes
      → length nodes < 2 ^ 64 - 1
      → climb tree_id
          (get_or nodes index [])
          index
          (length nodes)
          (sibling_step nodes index ++ more)
        ≡ ok (get_or (next_level tree_id nodes) (index / 2) [], more)
  unfolding climb sibling_step
  climb-sibling_step tree_id nodes index more h small bound = elim (Bool-cases (index % 2 == 0)) [
    | inl even ↦
        let at : index ≡ index / 2 + index / 2 = ground arith in
        elim (Bool-cases (ltb (index + 1) (length nodes))) [
          | inl pair ↦
              let wide : ltb (u64 (index + 1)) (length nodes) ≡ true = ground arith in
              rw
                (
                  even,
                  climb,
                  wide,
                  pair,
                  next_sibling-proof_step side_right bad_right_sibling (get_or nodes (index + 1) [])
                      more (get_or-IsHash nodes (index + 1) h (ground arith)),
                )
                (ap (λ top. ok (top, more))
                  (sym (
                    above_pair tree_id nodes (index / 2) index (index + 1) at (omega (arith, at))
                      (ground arith))))
          | inr single ↦
              let wide : ltb (u64 (index + 1)) (length nodes) ≡ false = ground arith in
              rw (even, climb, wide, single)
                (ap (λ top. ok (top, more))
                  (ap (λ i. get_or nodes i []) at
                    ∙ sym (get_or-next_level_single tree_id nodes (index / 2) (ground arith))))
        ]
    | inr odd ↦
        let at : index ≡ suc (index / 2 + index / 2) = ground arith in
        rw
          (
            odd,
            climb,
            next_sibling-proof_step side_left bad_left_sibling (get_or nodes (index - 1) []) more
                (get_or-IsHash nodes (index - 1) h (omega arith)),
          )
          (ap (λ top. ok (top, more))
            (sym (
              above_pair tree_id nodes (index / 2) (index - 1) index (omega (arith, at)) at
                (omega (arith, at)))))
  ]

  climb_all-proof_from :
      (fuel : ℕ) (tree_id : Bytes) (nodes : List Bytes) (index : ℕ)
      → PutsOutBytes c
      → All IsHash nodes
      → index < length nodes
      → length nodes ≤ fuel
      → length nodes < 2 ^ 64 - 1
      → climb_all fuel tree_id
          (get_or nodes index [])
          index
          (length nodes)
          (proof_from (levels_from fuel tree_id nodes) index)
        ≡ ok (get_or (last_level (levels_from fuel tree_id nodes)) 0 [], [])
  unfolding climb_all proof_from last_level
  climb_all-proof_from zero tree_id nodes index p h small enough bound = absurd (omega arith)
  climb_all-proof_from (suc fuel) tree_id nodes index p h small enough bound =
      elim (Bool-cases (leb (length nodes) 1)) [
        | inl one ↦
            let first : index ≡ 0 = ground arith in
            let level = levels_from_one fuel tree_id nodes one in
            rw (level, climb_all, one) (ap (λ i. ok (get_or nodes i [], [])) first)
        | inr many ↦
            let next = next_level tree_id nodes in
            let size = length-next_level tree_id nodes in
            let count : u64 (length nodes + 1) / 2 ≡ length next = omega (arith, size) in
            let (above, e) = levels_from-cons fuel tree_id next in
            let rest =
              climb_all-proof_from fuel tree_id next (index / 2) p
                (next_level-IsHash tree_id nodes p h) (ground (arith, size)) (ground (arith, size))
                (ground (arith, size)) in
            let step =
              climb-sibling_step tree_id nodes index (proof_from (next ∷ above) (index / 2)) h small
                bound in
            rw (levels_from_step fuel tree_id nodes (ground arith), e, climb_all, many, step, count)
              (rw e at rest)
      ]

  get_elem?-some :
      (xs : List Bytes) (i : ℕ) {x : Bytes}
      → get_elem? xs i ≡ some x
      → (i < length xs) × (get_or xs i [] ≡ x)
  get_elem?-some [] i h = cc
  get_elem?-some (y ∷ ys) zero h = (omega arith, cc h)
  get_elem?-some (y ∷ ys) (suc i) h =
      let (small, same) = get_elem?-some ys i h in (omega arith, same)

  proof-proof_from :
      (tree_id : Bytes) (leaves : List Bytes) (index : ℕ)
      → index < length leaves
      → proof (new_merkle_tree tree_id leaves) index
        ≡ some (proof_from (levels_from (length leaves) tree_id leaves) index)
  unfolding proof new_merkle_tree
  proof-proof_from tree_id leaves index small =
      let some_leaf : (length leaves == 0) ≡ false = ground arith in
      let (above, e) = levels_from-cons (length leaves) tree_id leaves in
      let within : leb (length leaves) index ≡ false = ground arith in
      let some_level : (length (leaves ∷ above) == 0) ≡ false = ground arith in
      rw (some_leaf, proof, e) (rw (some_level, within))

  -- The proof that a MerkleTree makes for any of its leaves is accepted by the verifier, against the
  -- root of the tree. Leaves are hashes of 32 bytes, there are less than 2 ^ 64 - 1 of them, and
  -- BLAKE3 puts out bytes.
  pub proof_accepted :
      (tree_id : Bytes) (leaves : List Bytes) (index : ℕ) {leaf : Bytes}
      → PutsOutBytes c
      → All IsHash leaves
      → length leaves < 2 ^ 64 - 1
      → get_elem? leaves index ≡ some leaf
      → (steps : List MerkleProofStep) × (proof (new_merkle_tree tree_id leaves) index ≡ some steps)
        × (verify_merkle_proof tree_id leaf index
              (length leaves)
              steps
              (root (new_merkle_tree tree_id leaves))
            ≡ ok tt)
  unfolding verify_merkle_proof
  proof_accepted tree_id leaves index p h bound at =
      let (small, same) = get_elem?-some leaves index at in
      let within : (length leaves == 0 || leb (length leaves) index) ≡ false = ground arith in
      let tree_root = root (new_merkle_tree tree_id leaves) in
      let reached =
        climb_all-proof_from (length leaves) tree_id leaves index p h small (omega arith) bound in
      let is_root : (tree_root == tree_root) ≡ true = (eq_bytes_iff tree_root tree_root).1 refl in
      (
        proof_from (levels_from (length leaves) tree_id leaves) index,
        proof-proof_from tree_id leaves index small,
        rw
            (
              ← same,
              within,
              verify_merkle_proof,
              reached,
              ← root-last_level tree_id leaves (omega arith),
            )
            (rw is_root),
      )
