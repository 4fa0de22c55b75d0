-- ===== src/Dag/Possession.antt =====
-- What an accepted AISeal proof (internal/aiseal/verify.go) shows about the file that the generator
-- (cmd/unifiedDAG/main.go) committed to.
use ai_po_w_unified_dag.AiSeal.Merkle.{verify_merkle_proof}
use ai_po_w_unified_dag.Prelude.{
  ok, get_elem?, length, some, ℕ, List, Bytes, Elem, ◌≡◌, ◌⊎◌, ◌<◌, subst, ◌^◌, ◌-◌, All, fail_if,
  ◌/=◌, nat_eq,
}
use ai_po_w_unified_dag.Protocol.{Crypto}
use ai_po_w_unified_dag.AiSeal.Types.{
  Manifest, Proof, PageProof, PageMaterial, Limits, VerificationResult, tree_pow,
}
use ai_po_w_unified_dag.AiSeal.Encoding.{decode_hex_32, decode_hex_bytes}
use ai_po_w_unified_dag.AiSeal.Sample.{Samples, derive_required_pages}
use ai_po_w_unified_dag.AiSeal.Verify.{verify_proof, material_from_proof}
use ai_po_w_unified_dag.AiSeal.Accepted.{verify_proof-IsAccepted}
use ai_po_w_unified_dag.Dag.Tree.{new_merkle_tree, root}
use ai_po_w_unified_dag.Prelude.Results.{>>=-ok, >>-ok}
use ai_po_w_unified_dag.AiSeal.Page.{merkle_leaf_hash, verify_page}
use ai_po_w_unified_dag.AiSeal.Errors.{bad_page_size}
use ai_po_w_unified_dag.Dag.Nodes.{IsNode, tagged_hash-IsNode}
use ai_po_w_unified_dag.Dag.Clash.{Clashes}
use ai_po_w_unified_dag.Dag.Sound.{verify_merkle_proof_sound}

module _ ⦃c : Crypto⦄ where
  -- The manifest commits to the leaves, in a tree of the generator.
  pub record Commits (m : Manifest) (leaves : List Bytes) : Type 0 where
    pub root_is : decode_hex_32 m.pow_commit_root ≡ ok (root (new_merkle_tree tree_pow leaves))
    pub count_is : m.pow_commit_leaf_count ≡ length leaves
    pub sized : All IsNode leaves
    pub bound : length leaves < 2 ^ 64 - 1

  -- A page of the proof that carries an index and whose bytes hash to the leaf there, unless the
  -- proof's path for it clashes with the tree.
  pub record Holds (m : Manifest) (proof : Proof) (leaves : List Bytes) (index : ℕ) : Type 0 where
    pub page : PageProof
    pub material : PageMaterial
    pub among : Elem page proof.pages
    pub at_index : page.page_index ≡ index
    pub reads : material_from_proof page m ≡ ok material
    pub committed :
        (get_elem? leaves index ≡ some material.pow_leaf)
        ⊎ Clashes tree_pow leaves material.pow_leaf index page.pow_path

  material_from_proof-IsNode :
      (p : PageProof) (m : Manifest) {material : PageMaterial}
      → material_from_proof p m ≡ ok material
      → IsNode material.pow_leaf
  unfolding material_from_proof merkle_leaf_hash
  material_from_proof-IsNode p m {material} h =
      let (page, decoded, h₁) = >>=-ok (decode_hex_bytes p.page) _ h in
      let (fits, h₂) = >>-ok (fail_if (length page /= m.page_size) bad_page_size) _ h₁ in
      let (parts, verified, h₃) = >>=-ok (verify_page page p.page_index m.page_size) _ h₂ in
      let leaf : merkle_leaf_hash tree_pow parts.0 parts.1 parts.2 ≡ material.pow_leaf = cc h₃ in
      rw (← leaf) (tagged_hash-IsNode _ _)

  -- If Verify accepts a proof, under a manifest whose commitment is the root of a tree of the
  -- generator over some leaves, then for each page that the seal's challenge samples the proof
  -- has a page of that index whose bytes hash to the leaf of the tree there; or else, in a round of
  -- the verifier on that page's path, the pair that it hashed is another pair of 32-byte nodes than
  -- the tree has there and has the same hash. The leaves have 32 bytes, and there are less than
  -- 2 ^ 64 - 1 of them.
  pub verify_proof_sound :
      (fuel : ℕ) (m : Manifest) (proof : Proof) (target : Bytes) (limits : Limits)
      (leaves : List Bytes) (samples : Samples) (index : ℕ) {result : VerificationResult}
      → Commits m leaves
      → verify_proof fuel m proof target limits ≡ ok result
      → derive_required_pages fuel m proof.seal ≡ ok samples
      → Elem index samples.required
      → Holds m proof leaves index
  verify_proof_sound fuel m proof target limits leaves samples index k h sampled e =
      let accepted = verify_proof-IsAccepted fuel m proof target limits h in
      let same_samples : accepted.samples ≡ samples = cc (accepted.sampled, sampled) in
      let same_root : accepted.pow_root ≡ root (new_merkle_tree tree_pow leaves) =
        cc (accepted.pow_root_is, k.root_is) in
      let p = accepted.proved index (rw same_samples e) in
      record {
        page = p.page;
        material = p.material;
        among = p.among;
        at_index = p.at_index;
        reads = p.reads;
        committed =
            verify_merkle_proof_sound tree_pow p.material.pow_leaf leaves index p.page.pow_path
              k.sized (material_from_proof-IsNode p.page m p.reads) k.bound
              (subst
                (λ n.
                  verify_merkle_proof tree_pow p.material.pow_leaf index n p.page.pow_path
                    (root (new_merkle_tree tree_pow leaves))
                  ≡ ok tt)
                k.count_is
                (subst
                  (λ r.
                    verify_merkle_proof tree_pow p.material.pow_leaf index m.pow_commit_leaf_count
                      p.page.pow_path r
                    ≡ ok tt)
                  same_root p.under_root));
      }
