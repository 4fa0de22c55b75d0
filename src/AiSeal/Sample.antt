-- ===== src/AiSeal/Sample.antt =====
-- internal/aiseal/verify.go: sampleUnique, deriveRequiredPages and containsSorted, which choose the
-- pages that a proof must show.
use ai_po_w_unified_dag.Go.Text.{trim_space}
use ai_po_w_unified_dag.Prelude.{
  zero, suc, Result, ok, err, ◌>>=◌, ◌>>◌, fail_if, List, Bytes, ℕ, ◌∷◌, Bool, ltb, ◌++◌, suc,
  if◌then◌else◌, contains, ◌==◌, ◌||◌, false, u64, ◌+◌, leb, [], sort_slice, nat_eq, length, ◌%◌,
}
use ai_po_w_unified_dag.Prelude.Ints.{to_uint64}
use ai_po_w_unified_dag.Protocol.{Crypto}
use ai_po_w_unified_dag.Go.Binary.{get_uint}
use ai_po_w_unified_dag.AiSeal.Types.{Manifest, Seal, domain_sample_pow, domain_sample_tensor}
use ai_po_w_unified_dag.AiSeal.Errors.{Error, no_fuel, too_many_samples}
use ai_po_w_unified_dag.AiSeal.Encoding.{
  write_string, tagged_hash, write_uint64, normalize_hex, normalize_arbitrary, to_lower,
}

-- The keys of a map, from a list of indexes.
unfoldable pub add_keys : List ℕ → List ℕ → List ℕ
add_keys [] set = set
add_keys (i ∷ is) set = add_keys is (if contains set i then set else set ++ i ∷ [])

-- sort.Search finds the first value that is not below the target.
unfoldable pub contains_sorted : List ℕ → ℕ → Bool
contains_sorted [] target = false
contains_sorted (v ∷ vs) target = if leb target v then v == target else contains_sorted vs target

module _ ⦃c : Crypto⦄ where
  unfoldable pub sample_seed : Bytes → Manifest → Seal → ℕ → ℕ → ℕ → Bytes
  sample_seed domain m seal count start span = tagged_hash domain (
      write_string (normalize_arbitrary seal.block_hash)
      ++ write_string (to_lower (trim_space seal.miner))
      ++ write_uint64 seal.epoch
      ++ write_uint64 seal.nonce
      ++ write_string (normalize_hex m.manifest_root)
      ++ write_string (normalize_hex m.pow_commit_root)
      ++ write_string (normalize_hex m.tensor_root)
      ++ write_uint64 m.total_pages
      ++ write_uint64 m.model_start_page
      ++ write_uint64 m.model_page_count
      ++ write_uint64 count
      ++ write_uint64 start
      ++ write_uint64 span)

  -- The index that a counter draws.
  unfoldable pub draw : Bytes → Bytes → ℕ → ℕ → ℕ → ℕ
  draw domain seed counter start span =
      let h = tagged_hash domain (seed ++ write_uint64 counter) in u64 (start + get_uint 8 h % span)

  -- The loop of sampleUnique, on fuel. `out` is what it has drawn, which is also the set `seen`.
  unfoldable pub draw_all : ℕ → Bytes → Bytes → ℕ → ℕ → ℕ → ℕ → List ℕ → Result Error (List ℕ)
  draw_all zero domain seed count start span counter out = err no_fuel
  draw_all (suc fuel) domain seed count start span counter out =
      let index = draw domain seed counter start span in
      let rest =
        draw_all fuel domain seed count start span (u64 (counter + 1))
          (if contains out index then out else out ++ index ∷ []) in
      if ltb (length out) count then rest else ok out

  unfoldable pub sample_unique : ℕ → Bytes → Manifest → Seal → ℕ → ℕ → ℕ → Result Error (List ℕ)
  sample_unique fuel domain m seal count start span =
      if count == 0 || span == 0
      then ok []
      else elim (draw_all fuel domain (sample_seed domain m seal count start span) count start span
          0 []) [ err e ↦ err e | ok out ↦ ok (sort_slice ltb out) ]

  -- The pages of the proof of work, those of the tensors, and both, sorted.
  pub record Samples : Type 0 where
    pub pow : List ℕ
    pub tensor : List ℕ
    pub required : List ℕ

  unfoldable pub derive_required_pages : ℕ → Manifest → Seal → Result Error Samples
  derive_required_pages fuel m seal = do
    let pow_count = to_uint64 seal.pow_sample_count
    let tensor_count = to_uint64 seal.tensor_sample_count
    fail_if (ltb m.total_pages pow_count || ltb m.model_page_count tensor_count) too_many_samples
    pow ← sample_unique fuel domain_sample_pow m seal pow_count 0 m.total_pages
    tensor ←
        sample_unique fuel domain_sample_tensor m seal tensor_count m.model_start_page
          m.model_page_count
    ok (record {
      pow = pow;
      tensor = tensor;
      required = sort_slice ltb (add_keys tensor (add_keys pow []));
    })
