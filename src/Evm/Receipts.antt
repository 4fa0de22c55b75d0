-- ===== src/Evm/Receipts.antt =====
-- internal/evm/forwarder.go: normalizeRequest, makeReceipt, executeMock and VerifyReceipt.
use ai_po_w_unified_dag.Prelude.{
  Result, ok, err, codes, ◌||◌, ◌/=◌, ◌==◌, if◌then◌else◌, Bytes, Bool, true, [], bytes_eq, length,
  nat_eq,
}
use ai_po_w_unified_dag.Go.Text.{trim_space}
use ai_po_w_unified_dag.Protocol.{Crypto, EvmRequest, EvmReceipt, hash_json, hash_bytes}
use ai_po_w_unified_dag.Protocol.Primitives.{evm_receipt_fields, mock_evm_fields, evm_request}

pub data Error : Type 0 where
  params_not_json method_mismatch commitment_mismatch : Error

module _ ⦃c : Crypto⦄ where
  unfoldable pub normalize_request : EvmRequest → Result Error EvmRequest
  normalize_request request =
      let trimmed = trim_space request.method in
      let method = if trimmed == [] then codes "eth_chainId" else trimmed in
      let params = if length request.params == 0 then codes "[]" else request.params in
      if c.json_valid params
      then ok (record { method = method; params = params })
      else err params_not_json

  unfoldable pub state_root : Bytes → Bytes → Bytes → Bytes
  state_root parent_hash request_hash response_hash =
      hash_json (
        evm_receipt_fields (codes "AIDCHAIN_EVM_RECEIPT_V1") parent_hash request_hash response_hash)

  unfoldable pub make_receipt : Bytes → EvmRequest → Bytes → Bytes → Bool → EvmReceipt
  make_receipt parent_hash request response upstream mock =
      let request_hash = hash_json (evm_request request) in
      let response_hash = hash_bytes response in
      record {
        method = request.method;
        request_hash = request_hash;
        response = response;
        response_hash = response_hash;
        state_root = state_root parent_hash request_hash response_hash;
        upstream = upstream;
        mock = mock;
      }

  unfoldable pub execute_mock : Bytes → EvmRequest → EvmReceipt
  execute_mock parent_hash request =
      make_receipt parent_hash request
        (c.marshal (mock_evm_fields true (codes "0x7a69") request.method))
        (codes "mock://deterministic-evm") true

  -- The comparison of VerifyReceipt, with a request that is normalized.
  unfoldable pub check_receipt : Bytes → EvmRequest → EvmReceipt → Result Error (Unit {0})
  check_receipt parent_hash request receipt =
      let want = make_receipt parent_hash request receipt.response receipt.upstream receipt.mock in
      if receipt.method /= request.method
      then err method_mismatch
      else if want.request_hash /= receipt.request_hash
          || want.response_hash /= receipt.response_hash
          || want.state_root /= receipt.state_root
      then err commitment_mismatch
      else ok tt

  unfoldable pub verify_receipt : Bytes → EvmRequest → EvmReceipt → Result Error (Unit {0})
  verify_receipt parent_hash request receipt = elim (normalize_request request) [
    | err e ↦ err e
    | ok r ↦ check_receipt parent_hash r receipt
  ]
