-- ===== src/AiSeal/Page.antt =====
-- internal/aiseal/hash.go: ManifestHash, readHeader, validateHeader, verifyPage and
-- merkleLeafHash.
use ai_po_w_unified_dag.Prelude.Ints.{sub64}
use ai_po_w_unified_dag.Protocol.{Crypto}
use ai_po_w_unified_dag.Protocol.Primitives.{manifest}
use ai_po_w_unified_dag.Go.Binary.{get_uint}
use ai_po_w_unified_dag.AiSeal.Errors.{
  Error, page_too_small, bad_page_magic, bad_page_version, bad_page_size, bad_header_size,
  bad_payload_size, payload_hash_mismatch, page_commit_mismatch, unknown_page_type,
}
use ai_po_w_unified_dag.AiSeal.Encoding.{
  write_bytes, write_string, tagged_hash, write_uint16, write_uint32, write_uint64,
}
use ai_po_w_unified_dag.Prelude.{
  ◌>>=◌, ◌>>◌, Result, ok, err, ℕ, [], Bytes, replicate, take, ◌-◌, drop, if◌then◌else◌, ◌++◌, ltb,
  length, ◌/=◌, bytes_eq, fail_if, ◌||◌, not, nat_eq, ◌==◌,
}
use ai_po_w_unified_dag.AiSeal.Types.{
  Manifest, PageHeader, domain_page_commit, domain_merkle_leaf, domain_manifest, page_hash_offset,
  page_hash_end, unified_header_size, magic_aidg, format_version, domain_hash_bytes,
  page_type_index, page_type_model, page_type_filler,
}

-- `s[lo:hi]`, where the text is long enough.
abbrev pub slice : ℕ → ℕ → Bytes → Bytes
slice lo hi s = take (hi - lo) (drop lo s)

abbrev pub zero_32 : Bytes
zero_32 = replicate 32 0

unfoldable pub canonical_manifest_for_root : Manifest → Manifest
canonical_manifest_for_root m = record m {
  manifest_root = [];
  generation_time = [];
  model_name = [];
  model_format = [];
  unified_layout = [];
}

unfoldable pub read_header : Bytes → Result Error PageHeader
read_header src =
    if ltb (length src) unified_header_size
    then err page_too_small
    else if slice 0 4 src /= magic_aidg
    then err bad_page_magic
    else ok (record {
      magic = slice 0 4 src;
      version = get_uint 2 (drop 4 src);
      page_type = get_uint 2 (drop 6 src);
      header_size = get_uint 4 (drop 8 src);
      page_size = get_uint 4 (drop 12 src);
      payload_size = get_uint 4 (drop 16 src);
      flags = get_uint 4 (drop 20 src);
      page_index = get_uint 8 (drop 24 src);
      model_offset = get_uint 8 (drop 32 src);
      model_size = get_uint 8 (drop 40 src);
      shard_id = get_uint 8 (drop 48 src);
      shard_count = get_uint 8 (drop 56 src);
      tensor_id = get_uint 4 (drop 64 src);
      layer_id = get_uint 4 (drop 68 src);
      shard_id2 = get_uint 4 (drop 72 src);
      quant_id = get_uint 4 (drop 76 src);
      payload_hash = slice 80 112 src;
      page_hash = slice 112 144 src;
      reserved = slice 144 160 src;
    })

unfoldable pub validate_header : PageHeader → ℕ → ℕ → Result Error (Unit {0})
validate_header h page_index page_size = do
  fail_if (h.version /= format_version) bad_page_version
  fail_if (h.header_size /= unified_header_size || h.page_size /= page_size) bad_header_size
  fail_if (h.payload_size /= sub64 page_size unified_header_size || h.page_index /= page_index)
      bad_payload_size
  fail_if
      (not (
        h.page_type == page_type_index
        || h.page_type == page_type_model
        || h.page_type == page_type_filler))
      unknown_page_type

module _ ⦃c : Crypto⦄ where
  unfoldable pub manifest_hash : Manifest → Bytes
  manifest_hash m =
      tagged_hash domain_manifest
        (write_bytes (c.marshal (manifest (canonical_manifest_for_root m))))

  -- What verifyPage hashes for the commitment: the page with its hash field blank.
  unfoldable pub page_commitment : Bytes → Bytes
  page_commitment page = tagged_hash domain_page_commit (
      write_bytes (take page_hash_offset page)
      ++ (zero_32 ++ write_bytes (drop page_hash_end page)))

  unfoldable pub verify_page : Bytes → ℕ → ℕ → Result Error (PageHeader × Bytes × Bytes)
  verify_page page page_index page_size = do
    fail_if (length page /= page_size || ltb page_size unified_header_size) bad_page_size
    h ← read_header (take unified_header_size page)
    validate_header h page_index page_size
    let payload_hash = tagged_hash domain_hash_bytes (write_bytes (drop unified_header_size page))
    fail_if (payload_hash /= h.payload_hash) payload_hash_mismatch
    let page_commit = page_commitment page
    fail_if (page_commit /= h.page_hash) page_commit_mismatch
    ok (h, payload_hash, page_commit)

  unfoldable pub merkle_leaf_hash : Bytes → PageHeader → Bytes → Bytes → Bytes
  merkle_leaf_hash tree_id h payload_hash page_commit = tagged_hash domain_merkle_leaf (
      write_string tree_id
      ++ write_uint16 h.version
      ++ write_uint16 h.page_type
      ++ write_uint32 h.header_size
      ++ write_uint32 h.page_size
      ++ write_uint32 h.payload_size
      ++ write_uint32 h.flags
      ++ write_uint64 h.page_index
      ++ write_uint64 h.model_offset
      ++ write_uint64 h.model_size
      ++ write_uint64 h.shard_id
      ++ write_uint64 h.shard_count
      ++ write_uint32 h.tensor_id
      ++ write_uint32 h.layer_id
      ++ write_uint32 h.shard_id2
      ++ write_uint32 h.quant_id
      ++ payload_hash
      ++ page_commit)
