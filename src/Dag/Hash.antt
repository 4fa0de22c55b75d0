-- ===== src/Dag/Hash.antt =====
-- cmd/unifiedDAG/main.go: its own hash functions.
use ai_po_w_unified_dag.Prelude.{◌++◌, Bytes, ◌≡◌, refl, length, codes, take, replicate}
use ai_po_w_unified_dag.Go.Hex.{encode_to_string}
use ai_po_w_unified_dag.Go.Binary.{put_uint}
use ai_po_w_unified_dag.Protocol.{Crypto}
use ai_po_w_unified_dag.AiSeal.Encoding

unfoldable pub write_bytes : Bytes → Bytes
write_bytes b = put_uint 8 (length b) ++ b

-- `copy(out[:], sum)` into 32 zero bytes
unfoldable pub finalize_hash : Bytes → Bytes
finalize_hash sum = take 32 (sum ++ replicate 32 0)

unfoldable pub fmt_hash : Bytes → Bytes
fmt_hash h = encode_to_string h

module _ ⦃c : Crypto⦄ where
  unfoldable pub blake3_hash_tagged : Bytes → Bytes → Bytes
  blake3_hash_tagged domain written = finalize_hash (c.blake3 (write_bytes domain ++ written))

  unfoldable pub merkle_node_hash : Bytes → Bytes → Bytes → Bytes
  merkle_node_hash tree_id left right =
      blake3_hash_tagged (codes "AIDG_MERKLE_NODE_V1") (write_bytes tree_id ++ (left ++ right))

  unfoldable pub merkle_empty_hash : Bytes → Bytes
  merkle_empty_hash tree_id =
      blake3_hash_tagged (codes "AIDG_MERKLE_EMPTY_V1") (write_bytes tree_id)

  -- The generator and the verifier hash a pair of nodes alike.
  pub node_hash_same :
      (tree_id left right : Bytes)
      → merkle_node_hash tree_id left right ≡ Encoding.merkle_node_hash tree_id left right
  unfolding merkle_node_hash blake3_hash_tagged finalize_hash write_bytes Encoding.merkle_node_hash
      Encoding.tagged_hash Encoding.copy_32 Encoding.write_bytes Encoding.write_uint64
  node_hash_same tree_id left right = refl
