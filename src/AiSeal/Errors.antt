-- ===== src/AiSeal/Errors.antt =====
-- internal/aiseal: the errors that hash.go and verify.go return.
use ai_po_w_unified_dag.Prelude.{ℕ}

pub data Error : Type 0 where
  bad_hex wrong_hash_size : Error
  bad_leaf_index bad_right_sibling bad_left_sibling merkle_root_mismatch : Error
  page_too_small bad_page_magic bad_page_version bad_header_size bad_payload_size : Error
  unknown_page_type bad_page_size payload_hash_mismatch page_commit_mismatch : Error
  bad_manifest_version bad_manifest_hash bad_page_layout bad_page_count bad_model_range : Error
  bad_leaf_counts bad_root root_is_zero manifest_root_mismatch : Error
  over_limits bad_proof_version bad_sample_counts seal_not_of_manifest too_many_samples : Error
  page_count_mismatch tensor_page_type shard_mismatch unexpected_tensor_path : Error
  duplicate_page missing_page : (index : ℕ) → Error
  mix_digest_mismatch ai_digest_mismatch work_hash_mismatch proof_hash_mismatch : Error
  bad_target target_missed : Error
  block_mismatch miner_mismatch epoch_mismatch expected_manifest_mismatch too_few_samples : Error
  result_mismatch : Error
  -- Not errors of the code: a slice index beyond the length, and the end of the fuel.
  slice_out_of_range no_fuel : Error
