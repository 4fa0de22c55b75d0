-- ===== src/AiSeal/Types.antt =====
-- internal/aiseal/types.go: the types of manifests, pages, seals and proofs, and the constants.
-- An array of bytes is a list of that many bytes.
use ai_po_w_unified_dag.Prelude.{ℕ, List, Bytes, codes}
use ai_po_w_unified_dag.Prelude.Ints.{ℤ, pos}

pub record Manifest : Type 0 where
  pub version : ℤ
  pub name : Bytes
  pub hash_algorithm : Bytes
  pub merkle_version : ℤ
  pub page_commit : Bytes
  pub page_size : ℕ  -- uint64
  pub header_size : ℕ  -- uint64
  pub payload_size : ℕ  -- uint64
  pub size_gb : ℕ  -- uint64
  pub total_bytes : ℕ  -- uint64
  pub total_pages : ℕ  -- uint64
  pub seed : Bytes
  pub aidag_root : Bytes
  pub tensor_root : Bytes
  pub pow_commit_root : Bytes
  pub manifest_root : Bytes
  pub generation_time : Bytes
  pub aidag_leaf_count : ℕ  -- uint64
  pub tensor_leaf_count : ℕ  -- uint64
  pub pow_commit_leaf_count : ℕ  -- uint64
  pub merkle_sidecar : Bytes
  pub sidecar_version : ℤ
  pub model_name : Bytes
  pub model_format : Bytes
  pub model_size : ℕ  -- uint64
  pub model_hash : Bytes
  pub model_start_page : ℕ  -- uint64
  pub model_page_count : ℕ  -- uint64
  pub model_end_page : ℕ  -- uint64
  pub index_page : ℕ  -- uint64
  pub filler_start : ℕ  -- uint64
  pub filler_end : ℕ  -- uint64
  pub unified_layout : Bytes

pub record PageHeader : Type 0 where
  pub magic : Bytes  -- [4]byte
  pub version : ℕ  -- uint16
  pub page_type : ℕ  -- uint16
  pub header_size : ℕ  -- uint32
  pub page_size : ℕ  -- uint32
  pub payload_size : ℕ  -- uint32
  pub flags : ℕ  -- uint32
  pub page_index : ℕ  -- uint64
  pub model_offset : ℕ  -- uint64
  pub model_size : ℕ  -- uint64
  pub shard_id : ℕ  -- uint64
  pub shard_count : ℕ  -- uint64
  pub tensor_id : ℕ  -- uint32
  pub layer_id : ℕ  -- uint32
  pub shard_id2 : ℕ  -- uint32
  pub quant_id : ℕ  -- uint32
  pub payload_hash : Bytes  -- [32]byte
  pub page_hash : Bytes  -- [32]byte
  pub reserved : Bytes  -- [16]byte

pub record MerkleProofStep : Type 0 where
  pub side : Bytes
  pub hash : Bytes

pub record PageProof : Type 0 where
  pub page_index : ℕ  -- uint64
  pub page : Bytes
  pub pow_path : List MerkleProofStep
  pub tensor_path : List MerkleProofStep

pub record Seal : Type 0 where
  pub version : ℕ  -- uint16
  pub epoch : ℕ  -- uint64
  pub block_hash : Bytes
  pub miner : Bytes
  pub nonce : ℕ  -- uint64
  pub pow_sample_count : ℤ
  pub tensor_sample_count : ℤ
  pub manifest_root : Bytes
  pub aidag_root : Bytes
  pub tensor_root : Bytes
  pub pow_root : Bytes
  pub model_hash : Bytes
  pub mix_digest : Bytes
  pub ai_digest : Bytes
  pub proof_hash : Bytes
  pub work_hash : Bytes

pub record Proof : Type 0 where
  pub version : ℤ
  pub seal : Seal
  pub pages : List PageProof

pub record VerificationResult : Type 0 where
  pub work_hash : Bytes
  pub proof_hash : Bytes
  pub ai_digest : Bytes
  pub mix_digest : Bytes
  pub page_count : ℤ

pub record Limits : Type 0 where
  pub max_proof_bytes : ℤ
  pub max_pages : ℤ
  pub max_page_size : ℕ  -- uint64

pub record PageMaterial : Type 0 where
  pub page_index : ℕ  -- uint64
  pub header : PageHeader
  pub page : Bytes
  pub payload : Bytes
  pub payload_hash : Bytes  -- [32]byte
  pub page_commit : Bytes  -- [32]byte
  pub pow_leaf : Bytes  -- [32]byte
  pub tensor_leaf : Bytes  -- [32]byte

abbrev pub unified_header_size : ℕ
unified_header_size = 160

abbrev pub format_version : ℕ
format_version = 2

abbrev pub manifest_version : ℤ
manifest_version = pos 2

abbrev pub merkle_version : ℤ
merkle_version = pos 1

abbrev pub seal_version : ℕ
seal_version = 1

abbrev pub proof_version : ℤ
proof_version = pos 1

abbrev pub page_type_index : ℕ
page_type_index = 1

abbrev pub page_type_model : ℕ
page_type_model = 2

abbrev pub page_type_filler : ℕ
page_type_filler = 3

abbrev pub page_hash_offset : ℕ
page_hash_offset = 112

abbrev pub page_hash_end : ℕ
page_hash_end = 144

unfoldable pub hash_algorithm : Bytes
hash_algorithm = codes "BLAKE3-256"

unfoldable pub tree_tensor : Bytes
tree_tensor = codes "AIDG_MERKLE_TREE_TENSOR_V1"

unfoldable pub tree_pow : Bytes
tree_pow = codes "AIDG_MERKLE_TREE_POW_COMMIT_V1"

unfoldable pub domain_hash_bytes : Bytes
domain_hash_bytes = codes "AIDG_HASH_BYTES_V1"

unfoldable pub domain_page_commit : Bytes
domain_page_commit = codes "AIDG_PAGE_COMMIT_V1"

unfoldable pub domain_merkle_leaf : Bytes
domain_merkle_leaf = codes "AIDG_MERKLE_LEAF_V1"

unfoldable pub domain_manifest : Bytes
domain_manifest = codes "AIDG_MANIFEST_ROOT_V1"

unfoldable pub domain_sample_pow : Bytes
domain_sample_pow = codes "AIDG_SAMPLE_POW_V1"

unfoldable pub domain_sample_tensor : Bytes
domain_sample_tensor = codes "AIDG_SAMPLE_TENSOR_V1"

unfoldable pub domain_mix_digest : Bytes
domain_mix_digest = codes "AIDG_MIX_DIGEST_V1"

unfoldable pub domain_ai_digest : Bytes
domain_ai_digest = codes "AIDG_AI_DIGEST_V1"

unfoldable pub domain_proof_hash : Bytes
domain_proof_hash = codes "AIDG_PROOF_HASH_V1"

unfoldable pub domain_seal_work : Bytes
domain_seal_work = codes "AIDG_SEAL_WORK_HASH_V1"

unfoldable pub magic_aidg : Bytes
magic_aidg = codes "AIDG"

-- DefaultLimits
abbrev pub default_limits : Limits
default_limits = record {
  max_proof_bytes = pos 8388608;
  max_pages = pos 256;
  max_page_size = 1048576;
}
