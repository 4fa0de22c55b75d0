-- ===== src/Node/Proposal.antt =====
-- internal/node/network.go: the block that Propose builds, and its request to the execution engine.
use ai_po_w_unified_dag.Prelude.{
  ℕ, ◌+◌, ◌-◌, ◌++◌, Bool, Bytes, length, drop, codes, u64, lt_bytes, sort_slice, bytes_eq, nat_eq,
}
use ai_po_w_unified_dag.Protocol.{
  Block, PowTicket, AiProofBundle, ZkmlProofBundle, InferenceAttestation, EvmReceipt,
  ExecutionPayloadEnvelope, ProposeRequest, Crypto, protocol_version, hash_json, hash_bytes,
  tickets_root, ai_proofs_root, result_qc_root, zkml_proofs_root,
}
use ai_po_w_unified_dag.Protocol.Primitives.{execution, randao_fields, beacon_fields}
use ai_po_w_unified_dag.Engine.Mock.{BuildInput}
use ai_po_w_unified_dag.Node.State.{Node}

unfoldable pub by_miner : PowTicket → PowTicket → Bool
by_miner a b = lt_bytes a.miner_id b.miner_id

unfoldable pub by_proof_miner : AiProofBundle → AiProofBundle → Bool
by_proof_miner a b = lt_bytes a.miner_id b.miner_id

unfoldable pub by_worker : InferenceAttestation → InferenceAttestation → Bool
by_worker a b = lt_bytes a.worker_id b.worker_id

unfoldable pub by_proof_worker : ZkmlProofBundle → ZkmlProofBundle → Bool
by_proof_worker a b = lt_bytes a.worker_id b.worker_id

module _ ⦃c : Crypto⦄ where
  -- What Propose asks of the execution engine at a height, a tip and a time.
  unfoldable pub build_input : Node → ℕ → Bytes → ℕ → Bytes → BuildInput
  build_input n height tip now job_id =
      let identity_hash = hash_bytes n.id in
      record {
        timestamp = now;
        prev_randao = hash_json (randao_fields tip job_id (u64 (height + 1)));
        suggested_fee_recipient = codes "0x" ++ drop (length identity_hash - 40) identity_hash;
        parent_beacon_block_root =
            hash_json
              (beacon_fields (codes "AIDCHAIN_PARENT_BEACON_ROOT_V1") tip (u64 (height + 1)));
        slot_number = u64 (height + 1);
        target_gas_limit = 30000000;
      }

  -- The block of Propose, with the text of its time, the winner, the receipt and the payload.
  unfoldable pub build_block :
      Node
      → ℕ
      → Bytes
      → Bytes
      → ProposeRequest
      → PowTicket
      → EvmReceipt
      → ExecutionPayloadEnvelope
      → Block
  build_block n height tip timestamp request winner receipt payload =
      let tickets = sort_slice by_miner request.tickets in
      let proofs = sort_slice by_proof_miner request.ai_proofs in
      let result_qc = record request.result_qc {
        attestations = sort_slice by_worker request.result_qc.attestations;
      } in
      let zkml_proofs = sort_slice by_proof_worker request.zkml_proofs in
      record {
        header = record {
          version = protocol_version;
          height = u64 (height + 1);
          parent_hash = tip;
          proposer_id = n.id;
          timestamp = timestamp;
          ai_receipt_root = request.result.ai_digest;
          evm_state_root = payload.state_root;
          evm_receipt_root = receipt.state_root;
          execution_hash = hash_json (execution payload);
          tickets_root = tickets_root tickets;
          ai_proofs_root = ai_proofs_root proofs;
          result_qc_root = result_qc_root result_qc;
          zkml_proofs_root = zkml_proofs_root zkml_proofs;
        };
        job = request.job;
        result = request.result;
        evm_request = request.evm;
        evm = receipt;
        execution = payload;
        winner = winner;
        tickets = tickets;
        ai_proofs = proofs;
        result_qc = result_qc;
        zkml_proofs = zkml_proofs;
      }
