-- ===== src/Node/Attested.antt =====
-- What validateResultCertificate accepts, and its cache of verified proofs (internal/node/node.go).
use ai_po_w_unified_dag.Prelude.{
  sym, ap, subst, ◌≡◌, ◌⊎◌, inl, inr, List, [], ◌∷◌, ◌++◌, true, ◌||◌, some, Bytes, ok, fail_if,
  lookup, contains, All, ◌==◌, ◌/=◌, bytes_eq, nat_eq, eq_bytes_iff, nat_beq_iff, Bool-cases,
  Option-cases, arith, codes,
}
use ai_po_w_unified_dag.Prelude.Results.{>>-ok, fail_if-ok, Result-cases}
use ai_po_w_unified_dag.Protocol.{
  PowTicket, ZkmlProofBundle, InferenceAttestation, Crypto, hash_json, inference_signing_bytes,
}
use ai_po_w_unified_dag.Protocol.Primitives.{result, Collision}
use ai_po_w_unified_dag.HotStuff.Validators.{public_key}
use ai_po_w_unified_dag.Zkml.Circuit.{Gnark}
use ai_po_w_unified_dag.Zkml.Prover.{Proof, Verifier, verify, statement_for, proof_hash}
use ai_po_w_unified_dag.Node.State.{Node, bad_signature, attestation_mismatch, zkml_binding}
use ai_po_w_unified_dag.Node.Competition.{Round}
use ai_po_w_unified_dag.Node.Certificate.{
  proof_of, check_attestation_signature, check_attestation, check_worker, check_cached,
}

abbrev pub workers : List InferenceAttestation → List Bytes
workers [] = []
workers (a ∷ others) = a.worker_id ∷ workers others

module _ ⦃c : Crypto⦄ where
  -- An attestation of a validator to the result of the round, signed, with the ticket of its worker.
  pub record IsAttested (n : Node) (round : Round) (tickets : List (Bytes × PowTicket))
      (a : InferenceAttestation) : Type 0 where
    pub key : Bytes
    pub signature : Bytes
    pub ticket : PowTicket
    pub of_validator : public_key n.validators a.worker_id ≡ some key
    pub has_ticket : lookup a.worker_id tickets ≡ some ticket
    pub at_height : a.height ≡ round.height
    pub on_parent : a.parent_hash ≡ round.parent_hash
    pub for_job : a.job_id ≡ round.job.id
    pub for_result : a.result_hash ≡ hash_json (result round.result)
    pub decodes : c.base64_decode a.signature ≡ some signature
    pub signed : c.ed25519_verify key (inference_signing_bytes a) signature ≡ true
    pub same_proof : ticket.zkml_proof_hash ≡ a.zkml_proof_hash

  check_attestation_signature-ok :
      (key : Bytes) (a : InferenceAttestation)
      → check_attestation_signature key a ≡ ok tt
      → (sig : Bytes) × (c.base64_decode a.signature ≡ some sig)
        × (c.ed25519_verify key (inference_signing_bytes a) sig ≡ true)
  unfolding check_attestation_signature
  check_attestation_signature-ok key a h = elim (Option-cases (c.base64_decode a.signature)) [
    | inl bad ↦ let k = rw (bad, check_attestation_signature) at h in cc k
    | inr (sig, good) ↦
        let passed = fail_if-ok _ bad_signature (rw (good, check_attestation_signature) at h) in
        (sig, good, ground arith)
  ]

  check_attestation-ok :
      (n : Node) (round : Round) (tickets : List (Bytes × PowTicket)) (a : InferenceAttestation)
      (key : Bytes) (ticket : PowTicket)
      → public_key n.validators a.worker_id ≡ some key
      → lookup a.worker_id tickets ≡ some ticket
      → check_attestation round a key ticket ≡ ok tt
      → IsAttested n round tickets a
  unfolding check_attestation
  check_attestation-ok n round tickets a key ticket known found h =
      let other =
        a.height /= round.height
        || a.parent_hash /= round.parent_hash
        || a.job_id /= round.job.id
        || a.result_hash /= hash_json (result round.result)
        || a.model_hash /= round.result.model_hash
        || a.input_hash /= round.result.input_hash
        || a.output_hash /= round.result.output_hash in
      let (bound, h) = >>-ok (fail_if other attestation_mismatch) _ h in
      let (signed, last) = >>-ok (check_attestation_signature key a) _ h in
      let (sig, decodes, verifies) = check_attestation_signature-ok key a signed in
      let bound_ok = fail_if-ok other attestation_mismatch bound in
      let tied = fail_if-ok (ticket.zkml_proof_hash /= a.zkml_proof_hash) zkml_binding last in
      record {
        key = key;
        signature = sig;
        ticket = ticket;
        of_validator = known;
        has_ticket = found;
        at_height = (nat_beq_iff a.height round.height).0 (ground arith);
        on_parent = (eq_bytes_iff a.parent_hash round.parent_hash).0 (ground arith);
        for_job = (eq_bytes_iff a.job_id round.job.id).0 (ground arith);
        for_result =
            (eq_bytes_iff a.result_hash (hash_json (result round.result))).0 (ground arith);
        decodes = decodes;
        signed = verifies;
        same_proof = (eq_bytes_iff ticket.zkml_proof_hash a.zkml_proof_hash).0 (ground arith);
      }

  pub check_worker-ok :
      (n : Node) (round : Round) (tickets : List (Bytes × PowTicket)) (a : InferenceAttestation)
      → check_worker n round tickets a ≡ ok tt
      → IsAttested n round tickets a
  unfolding check_worker
  check_worker-ok n round tickets a h = elim (Option-cases (public_key n.validators a.worker_id)) [
    | inl unknown ↦ let k = rw (unknown, check_worker) at h in cc k
    | inr (key, known) ↦
        let k = rw (known, check_worker) at h in
        elim (Option-cases (lookup a.worker_id tickets)) [
          | inl missing ↦ let l = rw missing at k in cc l
          | inr (ticket, found) ↦
              check_attestation-ok n round tickets a key ticket known found (rw found at k)
        ]
  ]

module _ ⦃g : Gnark⦄ ⦃c : Crypto⦄ where
  -- Some proof with the hash verifies.
  abbrev pub IsVerifiedHash : Verifier → Bytes → Type 0
  IsVerifiedHash ver hash = (p : Proof) × (proof_hash p ≡ hash) × (verify ver p ≡ ok tt)

  -- The proof of an attestation: about the job and the result, bound by its hash, and verified.
  pub record IsProvedBy (ver : Verifier) (round : Round) (a : InferenceAttestation) : Type 0 where
    pub bundle : ZkmlProofBundle
    pub bound : bundle.proof_hash ≡ a.zkml_proof_hash
    pub hash_is : bundle.proof_hash ≡ proof_hash (proof_of bundle)
    pub for_model :
        bundle.model_commitment ≡ (statement_for round.job.model round.job.prompt).model_commitment
    pub for_input :
        bundle.input_commitment ≡ (statement_for round.job.model round.job.prompt).input_commitment
    pub output_is : round.result.output ≡ codes "zkml-linear-v1:" ++ bundle.output
    pub verified : (verify ver (proof_of bundle) ≡ ok tt) ⊎ Collision proof_hash

  pub verified-or-Collision :
      (ver : Verifier) (p : Proof)
      → IsVerifiedHash ver (proof_hash p)
      → (verify ver p ≡ ok tt) ⊎ Collision proof_hash
  verified-or-Collision ver p (q, same, good) = elim (Result-cases (verify ver p)) [
    | inl (u, here) ↦ inl here
    | inr (e, bad) ↦
        inr (q, p, same, λ equal. let moved = ap (verify ver) equal in cc (good, bad, moved))
  ]

  -- Every hash of the cache is that of a proof that verifies.
  abbrev pub IsCache : Verifier → List Bytes → Type 0
  IsCache ver cache = All (IsVerifiedHash ver) cache

  All-contains :
      (ver : Verifier) (cache : List Bytes) (hash : Bytes)
      → IsCache ver cache
      → contains cache hash ≡ true
      → IsVerifiedHash ver hash
  unfolding contains
  All-contains ver [] hash h k = cc k
  All-contains ver (x ∷ cache) hash (here, h) k = elim (Bool-cases (x == hash)) [
    | inl same ↦ subst (IsVerifiedHash ver) ((eq_bytes_iff x hash).0 same) here
    | inr apart ↦ All-contains ver cache hash h (ground arith)
  ]

  -- The cache stays sound, and if there is no error the proof's hash is verified.
  pub check_cached-lem :
      (ver : Verifier) (cache : List Bytes) (bundle : ZkmlProofBundle)
      → IsCache ver cache
      → bundle.proof_hash ≡ proof_hash (proof_of bundle)
      → IsCache ver (check_cached ver cache bundle).0
        × ((check_cached ver cache bundle).1 ≡ ok tt → IsVerifiedHash ver bundle.proof_hash)
  unfolding check_cached
  check_cached-lem ver cache bundle h hash = elim (Bool-cases (contains cache bundle.proof_hash)) [
    | inl known ↦
        rw (known, check_cached) (h, λ _. All-contains ver cache bundle.proof_hash h known)
    | inr new ↦ elim (Result-cases (verify ver (proof_of bundle))) [
      | inl (u, good) ↦
          let fact : IsVerifiedHash ver bundle.proof_hash = (proof_of bundle, sym hash, good) in
          rw (new, check_cached) (rw good ((fact, h), λ _. fact))
      | inr (e, bad) ↦ rw (new, check_cached) (rw bad (h, λ k. cc k))
    ]
  ]
