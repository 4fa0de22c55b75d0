-- ===== src/AiSeal/Verify.antt =====
-- internal/aiseal/verify.go: ValidateManifest, Verify and VerifyExpected.
use ai_po_w_unified_dag.Go.Text.{trim_space}
use ai_po_w_unified_dag.Prelude.{
  none, some, Result, ok, err, ◌>>=◌, ◌>>◌, fail_if, Bytes, ℕ, length, not, ◌/=◌, List, ◌∷◌,
  if◌then◌else◌, [], ◌&&◌, lookup, insert, drop, ◌==◌, ltb, bytes_eq, nat_eq, ◌||◌, leb, u64, ◌*◌,
  ◌+◌,
}
use ai_po_w_unified_dag.Prelude.Ints.{int_eq, is_nonpositive, ltb_int, ℤ, pos, sub64, is_negative}
use ai_po_w_unified_dag.Protocol.{Crypto}
use ai_po_w_unified_dag.AiSeal.Types.{
  Manifest, Seal, Proof, PageProof, PageMaterial, Limits, VerificationResult, page_type_model,
  default_limits, manifest_version, tree_pow, tree_tensor, proof_version, seal_version,
  hash_algorithm, merkle_version, unified_header_size,
}
use ai_po_w_unified_dag.AiSeal.Errors.{
  Error, mix_digest_mismatch, bad_root, bad_page_size, block_mismatch, seal_not_of_manifest,
  missing_page, tensor_page_type, bad_manifest_version, bad_target, ai_digest_mismatch,
  duplicate_page, root_is_zero, shard_mismatch, unexpected_tensor_path, miner_mismatch, over_limits,
  work_hash_mismatch, target_missed, epoch_mismatch, expected_manifest_mismatch,
  proof_hash_mismatch, too_few_samples, result_mismatch, bad_proof_version, bad_sample_counts,
  page_count_mismatch, bad_manifest_hash, bad_page_layout, bad_page_count, bad_model_range,
  bad_leaf_counts, manifest_root_mismatch,
}
use ai_po_w_unified_dag.AiSeal.Encoding.{
  format_hash, decode_hex_32, decode_hex_bytes, normalize_arbitrary, to_lower, equal_hex,
  hash_meets_target,
}
use ai_po_w_unified_dag.AiSeal.Merkle.{verify_merkle_proof}
use ai_po_w_unified_dag.AiSeal.Page.{zero_32, verify_page, merkle_leaf_hash, manifest_hash}
use ai_po_w_unified_dag.AiSeal.Sample.{Samples, derive_required_pages, contains_sorted}
use ai_po_w_unified_dag.AiSeal.Digest.{
  compute_mix_digest, compute_ai_digest, compute_work_hash, compute_proof_hash,
}

pub record ExpectedChallenge : Type 0 where
  pub block_hash : Bytes
  pub miner : Bytes
  pub epoch : ℕ  -- uint64
  pub manifest_root : Bytes
  pub min_pow_samples : ℤ
  pub min_tensor_samples : ℤ

-- A root of the manifest decodes, and is not zero.
unfoldable pub check_root : Bytes → Result Error (Unit {0})
check_root value = elim (decode_hex_32 value) [
  | err e ↦ err bad_root
  | ok h ↦ fail_if (h == zero_32) root_is_zero
]

-- The proof's pages by index, which Verify refuses to have twice.
unfoldable pub collect_pages :
    List PageProof → List (ℕ × PageProof) → Result Error (List (ℕ × PageProof))
collect_pages [] pages = ok pages
collect_pages (p ∷ ps) pages =
    let rest = collect_pages ps (insert p.page_index p pages) in
    elim (lookup p.page_index pages) [ some old ↦ err (duplicate_page p.page_index) | none ↦ rest ]

-- The checks of Verify before it looks at the seal.
unfoldable pub check_limits : Manifest → Proof → Limits → Result Error (Unit {0})
check_limits m proof given = do
  let limits = if is_nonpositive given.max_pages then default_limits else given
  fail_if
      (ltb limits.max_page_size m.page_size || ltb_int limits.max_pages (pos (length proof.pages)))
      over_limits
  fail_if (proof.version /= proof_version || proof.seal.version /= seal_version) bad_proof_version
  fail_if (is_nonpositive proof.seal.pow_sample_count || is_negative proof.seal.tensor_sample_count)
      bad_sample_counts

module _ ⦃c : Crypto⦄ where
  unfoldable pub validate_manifest : Manifest → Result Error (Unit {0})
  validate_manifest m = do
    fail_if (m.version /= pos 0 && m.version /= manifest_version) bad_manifest_version
    fail_if (m.hash_algorithm /= hash_algorithm || m.merkle_version /= merkle_version)
        bad_manifest_hash
    fail_if
        (m.header_size /= unified_header_size
          || leb m.page_size m.header_size
          || m.payload_size /= sub64 m.page_size m.header_size)
        bad_page_layout
    fail_if (m.total_pages == 0 || m.total_bytes /= u64 (m.total_pages * m.page_size))
        bad_page_count
    fail_if
        (m.model_start_page == 0
          || m.model_page_count == 0
          || m.model_end_page /= u64 (m.model_start_page + m.model_page_count)
          || ltb m.total_pages m.model_end_page)
        bad_model_range
    fail_if
        (m.aidag_leaf_count /= m.total_pages
          || m.pow_commit_leaf_count /= m.total_pages
          || m.tensor_leaf_count /= m.model_page_count)
        bad_leaf_counts
    check_root m.aidag_root
    check_root m.tensor_root
    check_root m.pow_commit_root
    check_root m.manifest_root
    check_root m.model_hash
    fail_if (not (equal_hex m.manifest_root (format_hash (manifest_hash m)))) manifest_root_mismatch

  unfoldable pub verify_seal_matches_manifest : Seal → Manifest → Result Error (Unit {0})
  verify_seal_matches_manifest seal m =
      fail_if
        (not (
          equal_hex seal.manifest_root m.manifest_root
          && equal_hex seal.aidag_root m.aidag_root
          && equal_hex seal.tensor_root m.tensor_root
          && equal_hex seal.pow_root m.pow_commit_root
          && equal_hex seal.model_hash m.model_hash))
        seal_not_of_manifest

  unfoldable pub material_from_proof : PageProof → Manifest → Result Error PageMaterial
  material_from_proof p m = do
    page ← decode_hex_bytes p.page
    fail_if (length page /= m.page_size) bad_page_size
    (header, payload_hash, page_commit) ← verify_page page p.page_index m.page_size
    ok (record {
      page_index = p.page_index;
      header = header;
      page = page;
      payload = drop m.header_size page;
      payload_hash = payload_hash;
      page_commit = page_commit;
      pow_leaf = merkle_leaf_hash tree_pow header payload_hash page_commit;
      tensor_leaf =
          if header.page_type == page_type_model
          then merkle_leaf_hash tree_tensor header payload_hash page_commit
          else zero_32;
    })

  -- What Verify checks of a page that is a tensor sample.
  unfoldable pub verify_tensor :
      Manifest → Bytes → ℕ → PageProof → PageMaterial → Result Error (Unit {0})
  verify_tensor m tensor_root index p material = do
    fail_if (material.header.page_type /= page_type_model) tensor_page_type
    let tensor_index = sub64 index m.model_start_page
    fail_if (material.header.shard_id /= tensor_index) shard_mismatch
    verify_merkle_proof tree_tensor material.tensor_leaf tensor_index m.tensor_leaf_count
        p.tensor_path tensor_root

  -- One round of the loop of Verify.
  unfoldable pub verify_page_proof :
      Manifest → Bytes → Bytes → List ℕ → List (ℕ × PageProof) → ℕ → Result Error PageMaterial
  verify_page_proof m pow_root tensor_root tensor pages index = elim (lookup index pages) [
    | none ↦ err (missing_page index)
    | some p ↦ do
      material ← material_from_proof p m
      verify_merkle_proof tree_pow material.pow_leaf index m.pow_commit_leaf_count p.pow_path
          pow_root
      if contains_sorted tensor index
          then verify_tensor m tensor_root index p material
          else fail_if (length p.tensor_path /= 0) unexpected_tensor_path
      ok material
  ]

  unfoldable pub verify_pages :
      Manifest
      → Bytes
      → Bytes
      → List ℕ
      → List (ℕ × PageProof)
      → List ℕ
      → Result Error (List PageMaterial)
  verify_pages m pow_root tensor_root tensor pages [] = ok []
  verify_pages m pow_root tensor_root tensor pages (index ∷ indexes) = do
    material ← verify_page_proof m pow_root tensor_root tensor pages index
    more ← verify_pages m pow_root tensor_root tensor pages indexes
    ok (material ∷ more)

  unfoldable pub check_target : Bytes → Bytes → Result Error (Unit {0})
  check_target target work_hash = if target == [] then ok tt else elim (decode_hex_32 target) [
    | err e ↦ err bad_target
    | ok t ↦ fail_if (not (hash_meets_target work_hash t)) target_missed
  ]

  -- The checks of Verify after the pages.
  unfoldable pub check_seal :
      Manifest → Proof → Bytes → Samples → List PageMaterial → Result Error VerificationResult
  check_seal m proof target samples materials = do
    let mix_digest = compute_mix_digest proof.seal m samples.pow samples.tensor materials
    fail_if (not (equal_hex proof.seal.mix_digest (format_hash mix_digest))) mix_digest_mismatch
    ai_digest ← compute_ai_digest proof.seal m samples.tensor materials
    fail_if (not (equal_hex proof.seal.ai_digest (format_hash ai_digest))) ai_digest_mismatch
    let work_hash = compute_work_hash proof.seal
    fail_if
        (proof.seal.work_hash /= [] && not (equal_hex proof.seal.work_hash (format_hash work_hash)))
        work_hash_mismatch
    let proof_hash = compute_proof_hash proof
    fail_if (not (equal_hex proof.seal.proof_hash (format_hash proof_hash))) proof_hash_mismatch
    check_target target work_hash
    ok (record {
      work_hash = format_hash work_hash;
      proof_hash = format_hash proof_hash;
      ai_digest = format_hash ai_digest;
      mix_digest = format_hash mix_digest;
      page_count = pos (length proof.pages);
    })

  -- Verify, where the loops of sampleUnique have the fuel.
  unfoldable pub verify_proof :
      ℕ → Manifest → Proof → Bytes → Limits → Result Error VerificationResult
  verify_proof fuel m proof target limits = do
    validate_manifest m
    check_limits m proof limits
    verify_seal_matches_manifest proof.seal m
    pow_root ← decode_hex_32 m.pow_commit_root
    tensor_root ← decode_hex_32 m.tensor_root
    samples ← derive_required_pages fuel m proof.seal
    fail_if (length proof.pages /= length samples.required) page_count_mismatch
    pages ← collect_pages proof.pages []
    materials ← verify_pages m pow_root tensor_root samples.tensor pages samples.required
    check_seal m proof target samples materials

  unfoldable pub verify_expected :
      Proof → VerificationResult → ExpectedChallenge → Result Error (Unit {0})
  verify_expected proof result expected = do
    fail_if
        (expected.block_hash /= []
          && normalize_arbitrary proof.seal.block_hash /= normalize_arbitrary expected.block_hash)
        block_mismatch
    fail_if
        (expected.miner /= []
          && to_lower (trim_space proof.seal.miner) /= to_lower (trim_space expected.miner))
        miner_mismatch
    fail_if (expected.epoch /= 0 && proof.seal.epoch /= expected.epoch) epoch_mismatch
    fail_if
        (expected.manifest_root /= []
          && not (equal_hex proof.seal.manifest_root expected.manifest_root))
        expected_manifest_mismatch
    fail_if
        (ltb_int proof.seal.pow_sample_count expected.min_pow_samples
          || ltb_int proof.seal.tensor_sample_count expected.min_tensor_samples)
        too_few_samples
    fail_if
        (not (
          equal_hex proof.seal.proof_hash result.proof_hash
          && equal_hex proof.seal.ai_digest result.ai_digest))
        result_mismatch
