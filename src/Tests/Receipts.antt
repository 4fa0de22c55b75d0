-- ===== src/Tests/Receipts.antt =====
-- Receipts of the mock EVM and results of the dummy runner.
use ai_po_w_unified_dag.AiPow.Runner
use ai_po_w_unified_dag.AiPow.Runner.{DummyRunner, verify_result, verify_result-run, without_scheme}
use ai_po_w_unified_dag.Protocol.{AiJob, AiResult}
use ai_po_w_unified_dag.Go.Hex.{encode_to_string}
use ai_po_w_unified_dag.Go.Text.{
  trim_space, trim_while, leading_space, trailing_space, is_ascii_space, is_wide_space,
}
use ai_po_w_unified_dag.Prelude.{refl, ok, ◌≡◌, codes, ◌∷◌, [], ◌⊎◌, ◌↔◌, eq_bytes, Bytes}
use ai_po_w_unified_dag.Tests.Demo.{demo}
use ai_po_w_unified_dag.Protocol.{EvmRequest, EvmReceipt, hash_json, hash_bytes}
use ai_po_w_unified_dag.Protocol.Primitives.{Collision}
use ai_po_w_unified_dag.Evm.Receipts.{
  normalize_request, make_receipt, state_root, check_receipt, verify_receipt, execute_mock,
}
use ai_po_w_unified_dag.Evm.Binding.{IsReceipt, verify_receipt-ok_iff, receipts_bind}

abbrev demo_parent : Bytes
demo_parent = 1 ∷ []

abbrev demo_request : EvmRequest
demo_request = record { method = codes "eth_call"; params = codes "[]" }

abbrev demo_receipt : EvmReceipt
demo_receipt = execute_mock demo_parent demo_request

receipt_demo : verify_receipt demo_parent demo_request demo_receipt ≡ ok tt
unfolding verify_receipt check_receipt normalize_request make_receipt execute_mock state_root
    trim_space trim_while leading_space trailing_space is_ascii_space is_wide_space eq_bytes codes
    hash_json hash_bytes encode_to_string
receipt_demo = refl

verify_receipt-ok_iff_example : (verify_receipt demo_parent demo_request demo_receipt ≡ ok tt) ↔ (
    (r : EvmRequest) × (normalize_request demo_request ≡ ok r)
    × IsReceipt demo_parent r demo_receipt)
verify_receipt-ok_iff_example = verify_receipt-ok_iff demo_parent demo_request demo_receipt

receipts_bind_example :
    ((demo_parent ≡ demo_parent)
      × (normalize_request demo_request ≡ normalize_request demo_request)
      × (demo_receipt.response ≡ demo_receipt.response))
    ⊎ (Collision hash_json ⊎ Collision hash_bytes)
receipts_bind_example =
    receipts_bind demo_parent demo_parent demo_request demo_request demo_receipt demo_receipt
      receipt_demo receipt_demo refl

abbrev demo_runner : DummyRunner
demo_runner = record { manifest_root = [] }

abbrev demo_task : AiJob
demo_task = record { id = 1 ∷ []; model = 2 ∷ []; prompt = 3 ∷ []; created_at = [] }

abbrev demo_answer : AiResult
demo_answer = record {
  job_id = 1 ∷ [];
  model_hash = codes "0x02";
  input_hash = codes "0x03";
  output = codes "dummy-ai:";
  output_hash = codes "0x64756d6d792d61693a";
  ai_digest = codes "0x";
  proof_scheme = [];
}

answer_demo : verify_result demo_runner demo_task demo_answer ≡ ok tt
unfolding verify_result Runner.run eq_bytes codes hash_json hash_bytes encode_to_string
answer_demo = refl

verify_result-run_example :
    (want : AiResult) × (Runner.run demo_runner demo_task ≡ ok want)
    × (verify_result demo_runner demo_task want ≡ ok tt)
    × ((without_scheme want ≡ without_scheme demo_answer) ⊎ Collision hash_json)
verify_result-run_example = verify_result-run demo_runner demo_task demo_answer answer_demo
