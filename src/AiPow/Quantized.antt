-- ===== src/AiPow/Quantized.antt =====
-- internal/aipow/runner.go: QuantizedRunner.
use ai_po_w_unified_dag.Prelude.{
  ok, err, Result, codes, ◌++◌, ◌||◌, ◌==◌, ◌/=◌, bytes_eq, [], if◌then◌else◌, Bytes,
}
use ai_po_w_unified_dag.Go.Decimal.{format_uint}
use ai_po_w_unified_dag.Protocol.{Crypto, AiJob, AiResult, hash_json, hash_bytes}
use ai_po_w_unified_dag.Protocol.Primitives.{receipt_fields, result}
use ai_po_w_unified_dag.Zkml.Circuit.{derive, evaluate}
use ai_po_w_unified_dag.Zkml.Prover.{scheme}
use ai_po_w_unified_dag.AiPow.Runner.{RunError, incomplete_job, result_mismatch}

pub record QuantizedRunner : Type 0 where
  pub manifest_root : Bytes

module _ ⦃c : Crypto⦄ where
  unfoldable pub run_quantized : QuantizedRunner → AiJob → Result RunError AiResult
  run_quantized runner job =
      let (input, model) = derive job.model job.prompt in
      let output = codes "zkml-linear-v1:" ++ format_uint (evaluate input model) in
      let model_hash = hash_bytes job.model in
      let input_hash = hash_bytes job.prompt in
      let output_hash = hash_bytes output in
      if job.id == [] || job.model == [] || job.prompt == []
      then err incomplete_job
      else ok (record {
        job_id = job.id;
        model_hash = model_hash;
        input_hash = input_hash;
        output = output;
        output_hash = output_hash;
        ai_digest = hash_json (
            receipt_fields (codes "AIDCHAIN_AI_RECEIPT_V1") job.id model_hash input_hash output_hash
              runner.manifest_root);
        proof_scheme = scheme;
      })

  unfoldable pub verify_quantized : QuantizedRunner → AiJob → AiResult → Result RunError (Unit {0})
  verify_quantized runner job got = elim (run_quantized runner job) [
    | err e ↦ err e
    | ok want ↦
        if hash_json (result want) /= hash_json (result got) then err result_mismatch else ok tt
  ]
