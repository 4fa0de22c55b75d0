-- ===== src/Node/Proved.antt =====
-- The loop of validateResultCertificate over the attestations, and its cache (internal/node/node.go).
use ai_po_w_unified_dag.Prelude.{
  refl, subst, ◌≡◌, inl, inr, ◌≤◌, List, [], ◌∷◌, ◌++◌, true, false, ◌||◌, some, Bytes, Result, ok,
  fail_if, length, lookup, contains, fresh_tail, distinct, All, ltb, ◌/=◌, bytes_eq, nat_eq,
  eq_bytes_iff, nat_beq_iff, Bool-cases, Option-cases, arith, codes, ltb_false→le,
}
use ai_po_w_unified_dag.Prelude.Results.{>>-ok, fail_if-ok, Result-cases}
use ai_po_w_unified_dag.Protocol.{
  PowTicket, ZkmlProofBundle, InferenceAttestation, ResultCertificate, Crypto, hash_json,
}
use ai_po_w_unified_dag.Protocol.Primitives.{result}
use ai_po_w_unified_dag.HotStuff.Validators.{quorum}
use ai_po_w_unified_dag.Zkml.Circuit.{Gnark}
use ai_po_w_unified_dag.Zkml.Prover.{Verifier, Statement, statement_for, proof_hash}
use ai_po_w_unified_dag.Node.State.{
  Node, Error, zkml_hash_mismatch, zkml_statement_mismatch, certificate_hash, too_few_attestations,
  attestation_count,
}
use ai_po_w_unified_dag.Node.Competition.{Round}
use ai_po_w_unified_dag.Node.Certificate.{
  proof_of, check_worker, check_statement, check_zkml_proof, check_zkml, check_attestations,
  check_counts, validate_result_certificate, tickets_by_worker,
}
use ai_po_w_unified_dag.Node.Attested.{
  workers, IsAttested, check_worker-ok, IsVerifiedHash, IsProvedBy, IsCache, verified-or-Collision,
  check_cached-lem,
}

module _ ⦃g : Gnark⦄ ⦃c : Crypto⦄ where
  check_statement-ok :
      (ver : Verifier) (round : Round) (a : InferenceAttestation) (bundle : ZkmlProofBundle)
      → check_statement round a bundle ≡ ok tt
      → (bundle.proof_hash ≡ proof_hash (proof_of bundle))
        × (IsVerifiedHash ver bundle.proof_hash → IsProvedBy ver round a)
  unfolding check_statement
  check_statement-ok ver round a bundle h =
      let want : Statement = statement_for round.job.model round.job.prompt in
      let other_hash =
        bundle.proof_hash /= proof_hash (proof_of bundle)
        || bundle.proof_hash /= a.zkml_proof_hash in
      let other_statement =
        bundle.model_commitment /= want.model_commitment
        || bundle.input_commitment /= want.input_commitment
        || round.result.output /= codes "zkml-linear-v1:" ++ bundle.output in
      let (hashes, statement) = >>-ok (fail_if other_hash zkml_hash_mismatch) _ h in
      let hashes_ok = fail_if-ok other_hash zkml_hash_mismatch hashes in
      let statement_ok = fail_if-ok other_statement zkml_statement_mismatch statement in
      let hash_is =
        (eq_bytes_iff bundle.proof_hash (proof_hash (proof_of bundle))).0 (ground arith) in
      (
        hash_is,
        λ fact. record {
          bundle = bundle;
          bound = (eq_bytes_iff bundle.proof_hash a.zkml_proof_hash).0 (ground arith);
          hash_is = hash_is;
          for_model = (eq_bytes_iff bundle.model_commitment want.model_commitment).0 (ground arith);
          for_input = (eq_bytes_iff bundle.input_commitment want.input_commitment).0 (ground arith);
          output_is =
              (eq_bytes_iff round.result.output (codes "zkml-linear-v1:" ++ bundle.output)).0
                (ground arith);
          verified =
              verified-or-Collision ver (proof_of bundle) (subst (IsVerifiedHash ver) hash_is fact);
        },
      )

  -- A step keeps the cache sound, and if it ends well the attestation is proved.
  abbrev Advances :
      Verifier → Round → InferenceAttestation → List Bytes × Result Error (Unit {0}) → Type 0
  Advances ver round a step = IsCache ver step.0 × (step.1 ≡ ok tt → IsProvedBy ver round a)

  check_zkml_proof-Advances :
      (ver : Verifier) (round : Round) (by_worker : List (Bytes × ZkmlProofBundle))
      (cache : List Bytes) (a : InferenceAttestation)
      → IsCache ver cache
      → Advances ver round a (check_zkml_proof ver round by_worker cache a)
  unfolding check_zkml_proof
  check_zkml_proof-Advances ver round by_worker cache a h =
      elim (Option-cases (lookup a.worker_id by_worker)) [
        | inl missing ↦ rw (missing, check_zkml_proof) (h, λ k. cc k)
        | inr (bundle, found) ↦ elim (Result-cases (check_statement round a bundle)) [
          | inr (e, bad) ↦ rw (found, check_zkml_proof) (rw bad (h, λ k. cc k))
          | inl (u, good) ↦
              let (hash_is, proved) = check_statement-ok ver round a bundle good in
              let (kept, fact) = check_cached-lem ver cache bundle h hash_is in
              rw (found, check_zkml_proof) (rw good (kept, λ k. proved (fact k)))
        ]
      ]

  check_zkml-Advances :
      (n : Node) (ver : Verifier) (round : Round) (by_worker : List (Bytes × ZkmlProofBundle))
      (cache : List Bytes) (a : InferenceAttestation)
      → n.zkml_verifier ≡ some ver
      → IsCache ver cache
      → Advances ver round a (check_zkml n round by_worker cache a)
  unfolding check_zkml
  check_zkml-Advances n ver round by_worker cache a given h =
      rw (given, check_zkml) (check_zkml_proof-Advances ver round by_worker cache a h)

  -- The same for the loop.
  check_attestations-lem :
      (n : Node) (ver : Verifier) (round : Round) (tickets : List (Bytes × PowTicket))
      (proofs : List (Bytes × ZkmlProofBundle)) (seen cache : List Bytes)
      (them : List InferenceAttestation)
      → n.zkml_verifier ≡ some ver
      → IsCache ver cache
      → IsCache ver (check_attestations n round tickets proofs seen cache them).0
        × ((check_attestations n round tickets proofs seen cache them).1 ≡ ok tt
            → All (IsAttested n round tickets) them
              × All (IsProvedBy ver round) them
              × All (λ id. contains seen id ≡ false) (workers them)
              × (distinct (workers them) ≡ true))
  unfolding check_attestations distinct contains
  check_attestations-lem n ver round tickets proofs seen cache [] given h =
      (h, λ _. (tt, tt, tt, refl))
  check_attestations-lem n ver round tickets proofs seen cache (a ∷ others) given h =
      let (kept, proved) = check_zkml-Advances n ver round proofs cache a given h in
      elim (Bool-cases (contains seen a.worker_id)) [
        | inl twice ↦ rw (twice, check_attestations) (h, λ k. cc k)
        | inr fresh ↦ elim (Result-cases (check_worker n round tickets a)) [
          | inr (e, bad) ↦ rw (fresh, check_attestations) (rw bad (h, λ k. cc k))
          | inl (u, good) ↦ elim (Result-cases (check_zkml n round proofs cache a).1) [
            | inr (e, bad) ↦ rw (fresh, check_attestations) (rw good (rw bad (kept, λ k. cc k)))
            | inl (w, fine) ↦
                let (later, rest) =
                  check_attestations-lem n ver round tickets proofs (a.worker_id ∷ seen)
                    (check_zkml n round proofs cache a).0 others given kept in
                rw (fresh, check_attestations)
                  (rw good (
                    (rw fine (
                      later,
                      λ k.
                          let (all, proofs_ok, unseen, apart) = rest k in
                          let (before, here) =
                            fresh_tail a.worker_id seen (workers others) unseen in
                          (
                            (check_worker-ok n round tickets a good, all),
                            (proved fine, proofs_ok),
                            (refl, before),
                            ground arith,
                          ),
                    ))))
          ]
        ]
      ]

  check_counts-ok :
      (n : Node) (round : Round) (tickets : List PowTicket) (certificate : ResultCertificate)
      (proofs : List ZkmlProofBundle) {by_worker : List (Bytes × ZkmlProofBundle)}
      → check_counts n round tickets certificate proofs ≡ ok by_worker
      → (certificate.result_hash ≡ hash_json (result round.result))
        × (quorum n.validators ≤ length certificate.attestations)
        × (length certificate.attestations ≡ length tickets)
  unfolding check_counts
  check_counts-ok n round tickets certificate proofs h =
      let want = hash_json (result round.result) in
      let few = ltb (length certificate.attestations) (quorum n.validators) in
      let other = length certificate.attestations /= length tickets in
      let (hash, h) = >>-ok (fail_if (certificate.result_hash /= want) certificate_hash) _ h in
      let (enough, h) = >>-ok (fail_if few too_few_attestations) _ h in
      let (count, h) = >>-ok (fail_if other attestation_count) _ h in
      let hash_ok = fail_if-ok (certificate.result_hash /= want) certificate_hash hash in
      let enough_ok = fail_if-ok few too_few_attestations enough in
      let count_ok = fail_if-ok other attestation_count count in
      (
        (eq_bytes_iff certificate.result_hash want).0 (ground arith),
        ltb_false→le (length certificate.attestations) (quorum n.validators) enough_ok,
        (nat_beq_iff (length certificate.attestations) (length tickets)).0 (ground arith),
      )

  -- What a certificate that is accepted shows: it is for the result, a quorum attests it, no worker
  -- twice, each is a validator with a ticket, and each has a zkML proof of the result.
  pub record IsCertified (n : Node) (ver : Verifier) (round : Round) (tickets : List PowTicket)
      (certificate : ResultCertificate) : Type 0 where
    pub of_result : certificate.result_hash ≡ hash_json (result round.result)
    pub enough : quorum n.validators ≤ length certificate.attestations
    pub count : length certificate.attestations ≡ length tickets
    pub once : distinct (workers certificate.attestations) ≡ true
    pub attested : All (IsAttested n round (tickets_by_worker tickets [])) certificate.attestations
    pub proved : All (IsProvedBy ver round) certificate.attestations

  -- For a node with a zkML verifier whose cache holds only hashes of proofs that verify:
  -- validateResultCertificate keeps the cache so, whether it returns an error or not, and if it
  -- returns none the certificate is for the result, a quorum of validators attests it, no worker
  -- twice, and each attestation is signed, has the worker's ticket, and has a zkML proof of the job
  -- and the result that verifies, or two proofs have one hash.
  pub validate_result_certificate-IsCertified :
      (n : Node) (ver : Verifier) (round : Round) (tickets : List PowTicket)
      (certificate : ResultCertificate) (proofs : List ZkmlProofBundle)
      → n.zkml_verifier ≡ some ver
      → IsCache ver n.validated_zkml
      → IsCache ver
          (validate_result_certificate n round tickets certificate proofs).0.validated_zkml
        × ((validate_result_certificate n round tickets certificate proofs).1 ≡ ok tt
            → IsCertified n ver round tickets certificate)
  unfolding validate_result_certificate
  validate_result_certificate-IsCertified n ver round tickets certificate proofs given h =
      elim (Result-cases (check_counts n round tickets certificate proofs)) [
        | inr (e, bad) ↦ rw (bad, validate_result_certificate) (h, λ k. cc k)
        | inl (by_worker, good) ↦
            let (kept, facts) =
              check_attestations-lem n ver round (tickets_by_worker tickets []) by_worker []
                n.validated_zkml certificate.attestations given h in
            let (of_result, enough, count) =
              check_counts-ok n round tickets certificate proofs good in
            rw (good, validate_result_certificate)
              (
                kept,
                λ k.
                    let (all, proofs_ok, _, once) = facts k in
                    record {
                      of_result = of_result;
                      enough = enough;
                      count = count;
                      once = once;
                      attested = all;
                      proved = proofs_ok;
                    },
              )
      ]
