-- ===== src/AiSeal/Accepted.antt =====
-- What it means that Verify accepts a proof (internal/aiseal/verify.go).
use ai_po_w_unified_dag.AiSeal.Errors.{page_count_mismatch}
use ai_po_w_unified_dag.AiSeal.Encoding.{decode_hex_32}
use ai_po_w_unified_dag.Prelude.{
  refl, ℕ, List, [], ◌∷◌, ok, lookup, Bytes, Elem, insert, ◌≡◌, some, subst, Bool-cases,
  Option-cases, inl, sym, ◌==◌, inr, nat_eq, lookup-insert, ◌∙◌, nat_beq_iff, fail_if, length, ◌/=◌,
}
use ai_po_w_unified_dag.Prelude.Results.{>>-ok, >>=-ok}
use ai_po_w_unified_dag.Protocol.{Crypto}
use ai_po_w_unified_dag.AiSeal.Types.{
  Manifest, Proof, PageProof, PageMaterial, Limits, VerificationResult, tree_pow,
}
use ai_po_w_unified_dag.AiSeal.Merkle.{verify_merkle_proof}
use ai_po_w_unified_dag.AiSeal.Sample.{Samples, derive_required_pages}
use ai_po_w_unified_dag.AiSeal.Verify.{
  verify_proof, collect_pages, verify_pages, verify_page_proof, material_from_proof,
  validate_manifest, verify_seal_matches_manifest, check_seal, check_limits,
}

module _ ⦃c : Crypto⦄ where
  -- A page of the proof at an index: its bytes are a page with that index, and they are under the
  -- root of the commitment.
  pub record IsProvedPage (m : Manifest) (pow_root : Bytes) (pages : List PageProof) (index : ℕ)
      : Type 0 where
    pub page : PageProof
    pub material : PageMaterial
    pub among : Elem page pages
    pub at_index : page.page_index ≡ index
    pub reads : material_from_proof page m ≡ ok material
    pub under_root :
        verify_merkle_proof tree_pow material.pow_leaf index m.pow_commit_leaf_count page.pow_path
          pow_root
        ≡ ok tt

  -- The map of the pages holds pages of the list, each under its index.
  AreIndexed : List PageProof → List (ℕ × PageProof) → Type 0
  AreIndexed all pages =
      (i : ℕ) (p : PageProof) → lookup i pages ≡ some p → Elem p all × (p.page_index ≡ i)

  none_indexed : (all : List PageProof) → AreIndexed all []
  unfolding AreIndexed lookup
  none_indexed all i p h = cc

  insert-AreIndexed :
      (all : List PageProof) (p : PageProof) (pages : List (ℕ × PageProof))
      → Elem p all
      → AreIndexed all pages
      → AreIndexed all (insert p.page_index p pages)
  unfolding AreIndexed
  insert-AreIndexed all p pages m h i q e = elim (Bool-cases (p.page_index == i)) [
    | inl same ↦
        let k = sym (lookup-insert p.page_index i p pages) ∙ e in
        let k' = rw same at k in
        let is_p : p ≡ q = cc k' in
        (
          subst (λ z. Elem z all) is_p m,
          subst (λ z. z.page_index ≡ i) is_p ((nat_beq_iff p.page_index i).0 same),
        )
    | inr other ↦ let k = sym (lookup-insert p.page_index i p pages) ∙ e in h i q (rw other at k)
  ]

  collect_pages-AreIndexed :
      (all ps : List PageProof) (pages : List (ℕ × PageProof)) {done : List (ℕ × PageProof)}
      → ((p : PageProof) → Elem p ps → Elem p all)
      → AreIndexed all pages
      → collect_pages ps pages ≡ ok done
      → AreIndexed all done
  unfolding collect_pages
  collect_pages-AreIndexed all [] pages {done} sub h e = subst (AreIndexed all) (cc e) h
  collect_pages-AreIndexed all (p ∷ ps) pages {done} sub h e =
      elim (Option-cases (lookup p.page_index pages)) [
        | inl new ↦
            collect_pages-AreIndexed all ps (insert p.page_index p pages) (λ q m. sub q (inr m))
              (insert-AreIndexed all p pages (sub p (inl refl)) h) (rw (new, collect_pages) at e)
        | inr (old, found) ↦ let k = rw (found, collect_pages) at e in cc
      ]

  verify_page_proof-IsProvedPage :
      (m : Manifest) (pow_root tensor_root : Bytes) (tensor : List ℕ) (all : List PageProof)
      (pages : List (ℕ × PageProof)) (index : ℕ) {material : PageMaterial}
      → AreIndexed all pages
      → verify_page_proof m pow_root tensor_root tensor pages index ≡ ok material
      → IsProvedPage m pow_root all index
  unfolding verify_page_proof AreIndexed
  verify_page_proof-IsProvedPage m pow_root tensor_root tensor all pages index a h =
      elim (Option-cases (lookup index pages)) [
        | inl missing ↦ let k = rw (missing, verify_page_proof) at h in cc
        | inr (p, found) ↦
            let (material, reads, h₁) =
              >>=-ok (material_from_proof p m) _ (rw (found, verify_page_proof) at h) in
            record {
              page = p;
              material = material;
              among = (a index p found).0;
              at_index = (a index p found).1;
              reads = reads;
              under_root = (>>-ok _ _ h₁).0;
            }
      ]

  verify_pages-IsProvedPage :
      (m : Manifest) (pow_root tensor_root : Bytes) (tensor : List ℕ) (all : List PageProof)
      (pages : List (ℕ × PageProof)) (required : List ℕ) {materials : List PageMaterial} (index : ℕ)
      → AreIndexed all pages
      → verify_pages m pow_root tensor_root tensor pages required ≡ ok materials
      → Elem index required
      → IsProvedPage m pow_root all index
  unfolding verify_pages
  verify_pages-IsProvedPage m pow_root tensor_root tensor all pages [] index a h e = elim e [ ]
  verify_pages-IsProvedPage m pow_root tensor_root tensor all pages (i ∷ is) index a h e =
      let (material, first, h₁) =
        >>=-ok (verify_page_proof m pow_root tensor_root tensor pages i) _ h in
      let (more, rest, h₂) = >>=-ok (verify_pages m pow_root tensor_root tensor pages is) _ h₁ in
      elim e [
        | inl same ↦
            subst (IsProvedPage m pow_root all) same
              (verify_page_proof-IsProvedPage m pow_root tensor_root tensor all pages i a first)
        | inr later ↦
            verify_pages-IsProvedPage m pow_root tensor_root tensor all pages is index a rest later
      ]

  -- The steps of Verify that come to an end well.
  pub record IsAccepted (fuel : ℕ) (m : Manifest) (proof : Proof) (target : Bytes)
      (result : VerificationResult) : Type 0 where
    pub pow_root : Bytes
    pub tensor_root : Bytes
    pub samples : Samples
    pub materials : List PageMaterial
    pub valid_manifest : validate_manifest m ≡ ok tt
    pub sealed : verify_seal_matches_manifest proof.seal m ≡ ok tt
    pub pow_root_is : decode_hex_32 m.pow_commit_root ≡ ok pow_root
    pub sampled : derive_required_pages fuel m proof.seal ≡ ok samples
    pub proved :
        (index : ℕ) → Elem index samples.required → IsProvedPage m pow_root proof.pages index
    pub checked : check_seal m proof target samples materials ≡ ok result

  pub verify_proof-IsAccepted :
      (fuel : ℕ) (m : Manifest) (proof : Proof) (target : Bytes) (given : Limits)
      {result : VerificationResult}
      → verify_proof fuel m proof target given ≡ ok result
      → IsAccepted fuel m proof target result
  unfolding verify_proof
  verify_proof-IsAccepted fuel m proof target given h =
      let (valid, h₁) = >>-ok (validate_manifest m) _ h in
      let (within, h₂) = >>-ok (check_limits m proof given) _ h₁ in
      let (sealed, h₃) = >>-ok (verify_seal_matches_manifest proof.seal m) _ h₂ in
      let (pow_root, pow_root_is, h₄) = >>=-ok (decode_hex_32 m.pow_commit_root) _ h₃ in
      let (tensor_root, tensor_root_is, h₅) = >>=-ok (decode_hex_32 m.tensor_root) _ h₄ in
      let (samples, sampled, h₆) = >>=-ok (derive_required_pages fuel m proof.seal) _ h₅ in
      let (counted, h₇) =
        >>-ok (fail_if (length proof.pages /= length samples.required) page_count_mismatch) _ h₆ in
      let (pages, collected, h₈) = >>=-ok (collect_pages proof.pages []) _ h₇ in
      let (materials, shown, h₉) =
        >>=-ok (verify_pages m pow_root tensor_root samples.tensor pages samples.required) _ h₈ in
      record {
        pow_root = pow_root;
        tensor_root = tensor_root;
        samples = samples;
        materials = materials;
        valid_manifest = valid;
        sealed = sealed;
        pow_root_is = pow_root_is;
        sampled = sampled;
        proved = λ index e.
            verify_pages-IsProvedPage m pow_root tensor_root samples.tensor proof.pages pages
              samples.required index
              (collect_pages-AreIndexed proof.pages proof.pages [] (λ p k. k)
                (none_indexed proof.pages) collected)
              shown e;
        checked = h₉;
      }
