-- ===== src/AiPow/Runner.antt =====
-- internal/aipow/dummy.go: DummyRunner, the deterministic stand-in for inference.
use ai_po_w_unified_dag.Prelude.{
  refl, ok, err, Result, codes, take, drop, ◌||◌, ◌==◌, ◌/=◌, bytes_eq, eq_bytes_iff, arith, ◌++◌,
  [], ◌≡◌, Bytes, if◌then◌else◌, inr, inl, ◌⊎◌, Bool-cases, ◌&&◌, ap,
}
use ai_po_w_unified_dag.Prelude.Results.{Result-cases}
use ai_po_w_unified_dag.Protocol.{Crypto, AiJob, AiResult, hash_json, hash_bytes}
use ai_po_w_unified_dag.Protocol.Primitives.{dummy_seed_fields, receipt_fields, result, Collision}

pub data RunError : Type 0 where
  incomplete_job result_mismatch : RunError

pub record DummyRunner : Type 0 where
  pub manifest_root : Bytes

-- The result without its proof scheme, which Verify does not compare.
abbrev pub without_scheme : AiResult → AiResult
without_scheme r = record r { proof_scheme = [] }

module _ ⦃c : Crypto⦄ where
  unfoldable pub run : DummyRunner → AiJob → Result RunError AiResult
  run runner job =
      let model_hash = hash_bytes job.model in
      let input_hash = hash_bytes job.prompt in
      let seed =
        hash_json (dummy_seed_fields (codes "AIDCHAIN_DUMMY_INFERENCE_V1") model_hash input_hash) in
      let output = codes "dummy-ai:" ++ take 32 (drop 2 seed) in
      let output_hash = hash_bytes output in
      if job.id == [] || job.model == [] || job.prompt == []
      then err incomplete_job
      else ok (record {
        job_id = job.id;
        model_hash = model_hash;
        input_hash = input_hash;
        output = output;
        output_hash = output_hash;
        ai_digest = hash_json (
            receipt_fields (codes "AIDCHAIN_AI_RECEIPT_V1") job.id model_hash input_hash output_hash
              runner.manifest_root);
        proof_scheme = codes "dummy-deterministic-v1";
      })

  unfoldable pub verify_result : DummyRunner → AiJob → AiResult → Result RunError (Unit {0})
  verify_result runner job got = elim (run runner job) [
    | err e ↦ err e
    | ok want ↦
        if hash_json (result (without_scheme want)) /= hash_json (result (without_scheme got))
        then err result_mismatch
        else ok tt
  ]

  -- Verify accepts what Run returned.
  run-verify_result :
      (runner : DummyRunner) (job : AiJob) {want : AiResult}
      → run runner job ≡ ok want
      → verify_result runner job want ≡ ok tt
  unfolding verify_result
  run-verify_result runner job {want} h =
      let same =
        (eq_bytes_iff (hash_json (result (without_scheme want)))
            (hash_json (result (without_scheme want)))).1
          refl in
      rw (h, verify_result) (rw same)

  result_binds :
      (x y : AiResult)
      → hash_json (result (without_scheme x)) ≡ hash_json (result (without_scheme y))
      → (without_scheme x ≡ without_scheme y) ⊎ Collision hash_json
  result_binds x y h =
      elim (Bool-cases (
        x.job_id == y.job_id
        && x.model_hash == y.model_hash
        && x.input_hash == y.input_hash
        && x.output == y.output
        && x.output_hash == y.output_hash
        && x.ai_digest == y.ai_digest)) [
          | inl same ↦
              let e₁ = (eq_bytes_iff x.job_id y.job_id).0 (ground arith) in
              let e₂ = (eq_bytes_iff x.model_hash y.model_hash).0 (ground arith) in
              let e₃ = (eq_bytes_iff x.input_hash y.input_hash).0 (ground arith) in
              let e₄ = (eq_bytes_iff x.output y.output).0 (ground arith) in
              let e₅ = (eq_bytes_iff x.output_hash y.output_hash).0 (ground arith) in
              let e₆ = (eq_bytes_iff x.ai_digest y.ai_digest).0 (ground arith) in
              inl (rw (e₁, e₂, e₃, e₄, e₅, e₆) refl)
          | inr apart ↦ inr (
            _,
            _,
            h,
            λ e.
                let same : without_scheme x ≡ without_scheme y = cc e in
                let t₁ =
                  (eq_bytes_iff x.job_id y.job_id).1 (ap (λ (r : AiResult). r.job_id) same) in
                let t₂ =
                  (eq_bytes_iff x.model_hash y.model_hash).1
                    (ap (λ (r : AiResult). r.model_hash) same) in
                let t₃ =
                  (eq_bytes_iff x.input_hash y.input_hash).1
                    (ap (λ (r : AiResult). r.input_hash) same) in
                let t₄ =
                  (eq_bytes_iff x.output y.output).1 (ap (λ (r : AiResult). r.output) same) in
                let t₅ =
                  (eq_bytes_iff x.output_hash y.output_hash).1
                    (ap (λ (r : AiResult). r.output_hash) same) in
                let t₆ =
                  (eq_bytes_iff x.ai_digest y.ai_digest).1
                    (ap (λ (r : AiResult). r.ai_digest) same) in
                ground arith,
          )
        ]

  -- If Verify accepts a result, then Run ends well for the job with a result that Verify accepts too,
  -- and the two are equal up to the proof scheme, or else two values have one hash.
  pub verify_result-run :
      (runner : DummyRunner) (job : AiJob) (got : AiResult)
      → verify_result runner job got ≡ ok tt
      → (want : AiResult) × (run runner job ≡ ok want)
        × (verify_result runner job want ≡ ok tt)
        × ((without_scheme want ≡ without_scheme got) ⊎ Collision hash_json)
  unfolding verify_result
  verify_result-run runner job got h = elim (Result-cases (run runner job)) [
    | inr (e, bad) ↦ let k = rw (bad, verify_result) at h in cc
    | inl (want, good) ↦
        let k = rw (good, verify_result) at h in
        let same =
          (eq_bytes_iff (hash_json (result (without_scheme want)))
              (hash_json (result (without_scheme got)))).0
            (ground arith) in
        (want, good, run-verify_result runner job good, result_binds want got same)
  ]
