-- ===== src/Tests/Seal.antt =====
-- An AISeal proof of one page of a file of two, where every hash is the same.
use ai_po_w_unified_dag.AiSeal.Distinct.{sample_unique-distinct}
use ai_po_w_unified_dag.Dag.Complete.{IsHash, PutsOutBytes, proof_accepted}
use ai_po_w_unified_dag.Dag.Tree.{proof}
use ai_po_w_unified_dag.Dag.Possession.{Commits, Holds, verify_proof_sound}
use ai_po_w_unified_dag.Dag.Sound.{verify_merkle_proof_sound}
use ai_po_w_unified_dag.Dag.Clash.{Clashes}
use ai_po_w_unified_dag.AiSeal.Encoding.{
  write_uint16, write_uint32, write_uint64, write_bytes, copy_32, decode_hex_bytes, decode_hex_32,
  format_hash, lower_byte, is_ascii, has_prefix_0x, hash_meets_target, to_lower, normalize_hex,
  normalize_arbitrary, equal_hex, tagged_hash, merkle_node_hash,
}
use ai_po_w_unified_dag.AiSeal.Merkle.{
  side_left, side_right, next_sibling, climb, climb_all, verify_merkle_proof,
}
use ai_po_w_unified_dag.AiSeal.Page.{
  canonical_manifest_for_root, read_header, validate_header, manifest_hash, page_commitment,
  verify_page, merkle_leaf_hash,
}
use ai_po_w_unified_dag.AiSeal.Sample.{
  add_keys, contains_sorted, sample_seed, draw, draw_all, sample_unique, derive_required_pages,
}
use ai_po_w_unified_dag.AiSeal.Digest.{
  index_pages, by_index, write_each, page_less, write_seal_fields, compute_mix_digest,
  write_challenges, compute_ai_digest, compute_work_hash, write_steps, write_proof_path,
  write_pages, compute_proof_hash,
}
use ai_po_w_unified_dag.AiSeal.Verify.{
  check_root, collect_pages, check_limits, validate_manifest, verify_seal_matches_manifest,
  material_from_proof, verify_tensor, verify_page_proof, verify_pages, check_target, check_seal,
  verify_proof,
}
use ai_po_w_unified_dag.AiSeal.Types.{
  hash_algorithm, tree_tensor, tree_pow, domain_hash_bytes, domain_page_commit, domain_merkle_leaf,
  domain_manifest, domain_sample_pow, domain_sample_tensor, domain_mix_digest, domain_ai_digest,
  domain_proof_hash, domain_seal_work, magic_aidg,
}
use ai_po_w_unified_dag.Go.Hex.{encode_to_string, from_hex_char, decode_string}
use ai_po_w_unified_dag.Go.Text.{
  is_ascii_space, is_wide_space, leading_space, trailing_space, trim_while, trim_space,
  trim_prefix_2,
}
use ai_po_w_unified_dag.Go.Binary.{get_uint}
use ai_po_w_unified_dag.Prelude.{
  refl, ok, ◌≡◌, lookup, insert, contains, sort_slice, insert_sorted, codes, eq_bytes, lt_bytes,
  Bytes, [], ◌∷◌, replicate, ◌++◌, get_elem?, some, ◌⊎◌, arith, inl, List, distinct, true, All, ◌≤◌,
  ◌<◌, ◌+◌, length, ℕ, nat_eq,
}
use ai_po_w_unified_dag.Prelude.Ints.{pos}
use ai_po_w_unified_dag.Tests.Demo.{demo}
use ai_po_w_unified_dag.AiSeal.Types.{
  Manifest, Seal, Proof, PageProof, MerkleProofStep, VerificationResult, default_limits,
}
use ai_po_w_unified_dag.Dag.Tree.{new_merkle_tree, root, levels_from, next_level, last_level}
use ai_po_w_unified_dag.Dag.Hash.{
  merkle_node_hash as dag_node_hash, blake3_hash_tagged, finalize_hash,
}

abbrev ones : Bytes
ones = replicate 32 1

abbrev ones_text : Bytes
ones_text = 48 ∷ 120 ∷ encode_to_string ones

abbrev demo_manifest : Manifest
demo_manifest = record {
  version = pos 2;
  name = [];
  hash_algorithm = codes "BLAKE3-256";
  merkle_version = pos 1;
  page_commit = [];
  page_size = 161;
  header_size = 160;
  payload_size = 1;
  size_gb = 1;
  total_bytes = 322;
  total_pages = 2;
  seed = [];
  aidag_root = ones_text;
  tensor_root = ones_text;
  pow_commit_root = ones_text;
  manifest_root = ones_text;
  generation_time = [];
  aidag_leaf_count = 2;
  tensor_leaf_count = 1;
  pow_commit_leaf_count = 2;
  merkle_sidecar = [];
  sidecar_version = pos 1;
  model_name = [];
  model_format = [];
  model_size = 1;
  model_hash = ones_text;
  model_start_page = 1;
  model_page_count = 1;
  model_end_page = 2;
  index_page = 0;
  filler_start = 0;
  filler_end = 0;
  unified_layout = [];
}

-- A filler page with index 1.
abbrev demo_page_bytes : Bytes
demo_page_bytes =
    65
    ∷ 73
    ∷ 68
    ∷ 71
    ∷ 2
    ∷ 0
    ∷ 3
    ∷ 0
    ∷ 160
    ∷ 0
    ∷ 0
    ∷ 0
    ∷ 161
    ∷ 0
    ∷ 0
    ∷ 0
    ∷ 1
    ∷ 0
    ∷ 0
    ∷ 0
    ∷ 0
    ∷ 0
    ∷ 0
    ∷ 0
    ∷ 1
    ∷ (replicate 55 0 ++ (ones ++ (ones ++ replicate 17 0)))

abbrev demo_step : MerkleProofStep
demo_step = record { side = codes "left"; hash = ones_text }

abbrev demo_page : PageProof
demo_page = record {
  page_index = 1;
  page = encode_to_string demo_page_bytes;
  pow_path = demo_step ∷ [];
  tensor_path = [];
}

abbrev demo_seal : Seal
demo_seal = record {
  version = 1;
  epoch = 0;
  block_hash = [];
  miner = [];
  nonce = 0;
  pow_sample_count = pos 1;
  tensor_sample_count = pos 0;
  manifest_root = ones_text;
  aidag_root = ones_text;
  tensor_root = ones_text;
  pow_root = ones_text;
  model_hash = ones_text;
  mix_digest = ones_text;
  ai_digest = ones_text;
  proof_hash = ones_text;
  work_hash = ones_text;
}

abbrev demo_proof : Proof
demo_proof = record { version = pos 1; seal = demo_seal; pages = demo_page ∷ [] }

abbrev demo_result : VerificationResult
demo_result = record {
  work_hash = ones_text;
  proof_hash = ones_text;
  ai_digest = ones_text;
  mix_digest = ones_text;
  page_count = pos 1;
}

-- One draw gives page 1.
demo_samples_lem :
    derive_required_pages 2 demo_manifest demo_seal
    ≡ ok (record { pow = 1 ∷ []; tensor = []; required = 1 ∷ [] })
unfolding derive_required_pages sample_unique draw_all draw tagged_hash copy_32 get_uint contains
    sort_slice insert_sorted add_keys
demo_samples_lem = refl

leaves_demo :
    verify_merkle_proof tree_pow ones 1 2
      (demo_step ∷ [])
      (root (new_merkle_tree tree_pow (ones ∷ ones ∷ [])))
    ≡ ok tt
unfolding write_uint16 write_uint32 write_uint64 write_bytes copy_32 decode_hex_bytes decode_hex_32
    format_hash lower_byte is_ascii has_prefix_0x hash_meets_target to_lower normalize_hex
    normalize_arbitrary equal_hex tagged_hash merkle_node_hash side_left side_right next_sibling
    climb climb_all verify_merkle_proof encode_to_string from_hex_char decode_string is_ascii_space
    is_wide_space leading_space trailing_space trim_while trim_space trim_prefix_2 get_uint lookup
    insert contains sort_slice insert_sorted codes eq_bytes lt_bytes new_merkle_tree root
    levels_from next_level last_level dag_node_hash blake3_hash_tagged finalize_hash
leaves_demo = refl

accepted_demo : verify_proof 2 demo_manifest demo_proof [] default_limits ≡ ok demo_result
unfolding write_uint16 write_uint32 write_uint64 write_bytes copy_32 decode_hex_bytes decode_hex_32
    format_hash lower_byte is_ascii has_prefix_0x hash_meets_target to_lower normalize_hex
    normalize_arbitrary equal_hex tagged_hash merkle_node_hash side_left side_right next_sibling
    climb climb_all verify_merkle_proof canonical_manifest_for_root read_header validate_header
    manifest_hash page_commitment verify_page merkle_leaf_hash add_keys contains_sorted sample_seed
    draw draw_all sample_unique derive_required_pages index_pages by_index write_each page_less
    write_seal_fields compute_mix_digest write_challenges compute_ai_digest compute_work_hash
    write_steps write_proof_path write_pages compute_proof_hash check_root collect_pages
    check_limits validate_manifest verify_seal_matches_manifest material_from_proof verify_tensor
    verify_page_proof verify_pages check_target check_seal verify_proof hash_algorithm tree_tensor
    tree_pow domain_hash_bytes domain_page_commit domain_merkle_leaf domain_manifest
    domain_sample_pow domain_sample_tensor domain_mix_digest domain_ai_digest domain_proof_hash
    domain_seal_work magic_aidg encode_to_string from_hex_char decode_string is_ascii_space
    is_wide_space leading_space trailing_space trim_while trim_space trim_prefix_2 get_uint lookup
    insert contains sort_slice insert_sorted codes eq_bytes lt_bytes
accepted_demo = refl

verify_merkle_proof_sound_example :
    (get_elem? (ones ∷ ones ∷ []) 1 ≡ some ones)
    ⊎ Clashes tree_pow (ones ∷ ones ∷ []) ones 1 (demo_step ∷ [])
verify_merkle_proof_sound_example =
    verify_merkle_proof_sound tree_pow ones (ones ∷ ones ∷ []) 1 (demo_step ∷ []) (refl, (refl, tt))
      refl (omega arith) leaves_demo

demo-Commits : Commits demo_manifest (ones ∷ ones ∷ [])
unfolding decode_hex_32 decode_hex_bytes trim_space trim_while leading_space trailing_space
    is_ascii_space is_wide_space trim_prefix_2 decode_string from_hex_char encode_to_string copy_32
    tagged_hash eq_bytes new_merkle_tree root levels_from next_level last_level dag_node_hash
    blake3_hash_tagged finalize_hash
demo-Commits = record {
  root_is = refl;
  count_is = refl;
  sized = (refl, (refl, tt));
  bound = omega arith;
}

verify_proof_sound_example : Holds demo_manifest demo_proof (ones ∷ ones ∷ []) 1
verify_proof_sound_example =
    verify_proof_sound 2 demo_manifest demo_proof [] default_limits (ones ∷ ones ∷ [])
      (record { pow = 1 ∷ []; tensor = []; required = 1 ∷ [] }) 1 demo-Commits accepted_demo
      demo_samples_lem (inl refl)

ones-IsHash : IsHash ones
ones-IsHash = (refl, ground arith)

demo-PutsOutBytes : PutsOutBytes demo
demo-PutsOutBytes b = ground arith

proof_accepted_example :
    (steps : List MerkleProofStep) × (proof (new_merkle_tree tree_pow (ones ∷ ones ∷ ones ∷ [])) 2
      ≡ some steps)
    × (verify_merkle_proof tree_pow ones 2 3 steps
          (root (new_merkle_tree tree_pow (ones ∷ ones ∷ ones ∷ [])))
        ≡ ok tt)
proof_accepted_example =
    proof_accepted tree_pow (ones ∷ ones ∷ ones ∷ []) 2 demo-PutsOutBytes
      (ones-IsHash, (ones-IsHash, (ones-IsHash, tt))) (omega arith) refl

abbrev one_index : List ℕ
one_index = 1 ∷ []

one_sample : sample_unique 2 domain_sample_pow demo_manifest demo_seal 1 0 2 ≡ ok (1 ∷ [])
unfolding sample_unique draw_all draw tagged_hash copy_32 get_uint contains sort_slice insert_sorted
one_sample = refl

sample_unique-distinct_example :
    (distinct one_index ≡ true)
    × All (λ i. (0 ≤ i) × (i < 0 + 2)) one_index
    × (length one_index ≡ 1)
sample_unique-distinct_example =
    sample_unique-distinct 2 domain_sample_pow demo_manifest demo_seal 1 0 2 (omega arith)
      (omega arith) one_sample
