-- ===== src/AiSeal/Digest.antt =====
-- internal/aiseal/verify.go: computeMixDigest, computeAIDigest, tensorChallenge, computeWorkHash,
-- computeProofHash and what they write.
use ai_po_w_unified_dag.Go.Text.{trim_space}
use ai_po_w_unified_dag.Prelude.{
  zero, suc, none, some, Result, ok, err, ◌>>=◌, List, replicate, Bytes, Bool, ℕ, [], sort_slice,
  ◌∷◌, ◌+◌, ltb, ◌++◌, suc, length, lookup, insert, ◌%◌, if◌then◌else◌, leb, ◌==◌, nat_eq, take,
  drop, ◌-◌,
}
use ai_po_w_unified_dag.Prelude.Ints.{to_uint64}
use ai_po_w_unified_dag.Protocol.{Crypto}
use ai_po_w_unified_dag.Go.Binary.{get_uint}
use ai_po_w_unified_dag.AiSeal.Types.{
  Manifest, Seal, Proof, PageProof, PageMaterial, PageHeader, MerkleProofStep, domain_mix_digest,
  domain_ai_digest, domain_proof_hash, domain_seal_work,
}
use ai_po_w_unified_dag.AiSeal.Errors.{Error, slice_out_of_range}
use ai_po_w_unified_dag.AiSeal.Encoding.{
  write_bytes, write_string, tagged_hash, write_uint16, write_uint64, normalize_hex,
  normalize_arbitrary, to_lower,
}
use ai_po_w_unified_dag.AiSeal.Page.{zero_32}

-- The zero value of a page, which a missing key reads as.
abbrev pub zero_header : PageHeader
zero_header = record {
  magic = replicate 4 0;
  version = 0;
  page_type = 0;
  header_size = 0;
  page_size = 0;
  payload_size = 0;
  flags = 0;
  page_index = 0;
  model_offset = 0;
  model_size = 0;
  shard_id = 0;
  shard_count = 0;
  tensor_id = 0;
  layer_id = 0;
  shard_id2 = 0;
  quant_id = 0;
  payload_hash = zero_32;
  page_hash = zero_32;
  reserved = replicate 16 0;
}

abbrev pub zero_material : PageMaterial
zero_material = record {
  page_index = 0;
  header = zero_header;
  page = [];
  payload = [];
  payload_hash = zero_32;
  page_commit = zero_32;
  pow_leaf = zero_32;
  tensor_leaf = zero_32;
}

-- The loop that fills the map `byIndex`.
unfoldable pub index_pages : List PageMaterial → List (ℕ × PageMaterial) → List (ℕ × PageMaterial)
index_pages [] pages = pages
index_pages (m ∷ ms) pages = index_pages ms (insert m.page_index m pages)

-- `byIndex[index]`
unfoldable pub by_index : List PageMaterial → ℕ → PageMaterial
by_index ms index = elim (lookup index (index_pages ms [])) [ none ↦ zero_material | some m ↦ m ]

-- What a loop over some indexes writes.
unfoldable pub write_each : (ℕ → Bytes) → List ℕ → Bytes
write_each f [] = []
write_each f (i ∷ is) = f i ++ write_each f is

-- 32 bytes of the payload from an offset, which wrap to its beginning.
unfoldable pub window : Bytes → ℕ → Result Error Bytes
window payload offset =
    let end = offset + 32 in
    if leb end (length payload)
    then ok (take 32 (drop offset payload))
    else if ltb (length payload) (end - length payload)
    then err slice_out_of_range
    else ok (drop offset payload ++ take (end - length payload) payload)

unfoldable pub page_less : PageProof → PageProof → Bool
page_less a b = ltb a.page_index b.page_index

module _ ⦃c : Crypto⦄ where
  unfoldable pub write_seal_fields : Seal → Bytes
  write_seal_fields seal =
      write_uint16 seal.version
      ++ write_uint64 seal.epoch
      ++ write_string (normalize_arbitrary seal.block_hash)
      ++ write_string (to_lower (trim_space seal.miner))
      ++ write_uint64 seal.nonce
      ++ write_uint64 (to_uint64 seal.pow_sample_count)
      ++ write_uint64 (to_uint64 seal.tensor_sample_count)
      ++ write_string (normalize_hex seal.manifest_root)
      ++ write_string (normalize_hex seal.aidag_root)
      ++ write_string (normalize_hex seal.tensor_root)
      ++ write_string (normalize_hex seal.pow_root)
      ++ write_string (normalize_hex seal.model_hash)

  unfoldable pub compute_mix_digest : Seal → Manifest → List ℕ → List ℕ → List PageMaterial → Bytes
  compute_mix_digest seal m pow tensor pages =
      let write_pow = λ (i : ℕ).
        let p = by_index pages i in
        write_uint64 i
        ++ write_uint16 p.header.page_type
        ++ p.payload_hash
        ++ p.page_commit
        ++ p.pow_leaf in
      let write_tensor = λ (i : ℕ).
        let p = by_index pages i in
        write_uint64 i
        ++ write_uint64 p.header.shard_id
        ++ write_uint64 p.header.model_offset
        ++ write_uint64 p.header.model_size
        ++ p.payload_hash
        ++ p.page_commit
        ++ p.tensor_leaf in
      tagged_hash domain_mix_digest (
        write_seal_fields seal
        ++ write_string (normalize_hex m.manifest_root)
        ++ write_uint64 m.total_pages
        ++ write_uint64 m.model_start_page
        ++ write_uint64 m.model_page_count
        ++ write_uint64 (length pow)
        ++ write_each write_pow pow
        ++ write_uint64 (length tensor)
        ++ write_each write_tensor tensor)

  -- The loop of tensorChallenge from round `i` on, with the rounds that are left.
  unfoldable pub challenge_windows : ℕ → ℕ → Bytes → Bytes → Result Error Bytes
  challenge_windows zero i seed payload = ok []
  challenge_windows (suc left) i seed payload = do
    let h = tagged_hash domain_ai_digest (seed ++ write_uint64 i)
    bytes ← window payload (get_uint 8 h % length payload)
    more ← challenge_windows left (i + 1) seed payload
    ok (write_bytes bytes ++ more)

  unfoldable pub tensor_challenge : Seal → ℕ → Bytes → Result Error Bytes
  tensor_challenge seal index payload =
      let head = write_seal_fields seal ++ write_uint64 index in
      let start = head ++ write_uint64 (length payload) in
      if length payload == 0 then ok (tagged_hash domain_ai_digest start) else do
        windows ← challenge_windows 32 0 (tagged_hash domain_ai_digest head) payload
        ok (tagged_hash domain_ai_digest (start ++ windows))

  -- The loop of computeAIDigest.
  unfoldable pub write_challenges : Seal → List PageMaterial → List ℕ → Result Error Bytes
  write_challenges seal pages [] = ok []
  write_challenges seal pages (i ∷ is) = do
    let p = by_index pages i
    challenge ← tensor_challenge seal i p.payload
    more ← write_challenges seal pages is
    ok (
        write_uint64 i
        ++ write_uint64 p.header.shard_id
        ++ write_uint64 p.header.model_offset
        ++ write_uint64 p.header.model_size
        ++ p.payload_hash
        ++ p.page_commit
        ++ challenge
        ++ more)

  unfoldable pub compute_ai_digest :
      Seal → Manifest → List ℕ → List PageMaterial → Result Error Bytes
  compute_ai_digest seal m tensor pages = do
    written ← write_challenges seal pages tensor
    ok (
        tagged_hash domain_ai_digest (
          write_seal_fields seal
          ++ write_string (normalize_hex m.model_hash)
          ++ write_uint64 m.model_size
          ++ write_uint64 m.model_page_count
          ++ write_uint64 (length tensor)
          ++ written))

  unfoldable pub compute_work_hash : Seal → Bytes
  compute_work_hash seal = tagged_hash domain_seal_work (
      write_seal_fields seal
      ++ write_string (normalize_hex seal.mix_digest)
      ++ write_string (normalize_hex seal.ai_digest))

  unfoldable pub write_steps : List MerkleProofStep → Bytes
  write_steps [] = []
  write_steps (step ∷ steps) =
      write_string step.side ++ write_string (normalize_hex step.hash) ++ write_steps steps

  unfoldable pub write_proof_path : List MerkleProofStep → Bytes
  write_proof_path path = write_uint64 (length path) ++ write_steps path

  unfoldable pub write_pages : List PageProof → Bytes
  write_pages [] = []
  write_pages (p ∷ ps) =
      write_uint64 p.page_index
      ++ write_string (normalize_hex p.page)
      ++ write_proof_path p.pow_path
      ++ write_proof_path p.tensor_path
      ++ write_pages ps

  unfoldable pub compute_proof_hash : Proof → Bytes
  compute_proof_hash proof =
      let pages = sort_slice page_less proof.pages in
      tagged_hash domain_proof_hash (
        write_uint64 (to_uint64 proof.version)
        ++ write_seal_fields proof.seal
        ++ write_string (normalize_hex proof.seal.mix_digest)
        ++ write_string (normalize_hex proof.seal.ai_digest)
        ++ write_string (normalize_hex proof.seal.work_hash)
        ++ write_uint64 (length pages)
        ++ write_pages pages)
