-- ===== src/Node/State.antt =====
-- internal/node/node.go: Node, with what it takes from outside: the clock, the decoder of proofs and
-- the interfaces aipow.Runner and engine.Engine.
use ai_po_w_unified_dag.Prelude.{
  ℕ, ◌+◌, List, [], ◌++◌, Bool, ◌&&◌, ◌||◌, Option, Bytes, ltb, ◌==◌, bytes_eq, codes, nat_eq,
}
use ai_po_w_unified_dag.Prelude.Ints.{ℤ, pos, negsuc, ltb_int, int_eq}
use ai_po_w_unified_dag.Go.Text.{trim_prefix_2}
use ai_po_w_unified_dag.Protocol.{AiJob, AiResult, ExecutionPayloadEnvelope}
use ai_po_w_unified_dag.HotStuff.Validators.{ValidatorSet}
use ai_po_w_unified_dag.AiPow.Tickets.{Error as TicketError}
use ai_po_w_unified_dag.AiSeal.Types.{Manifest, Proof}
use ai_po_w_unified_dag.AiSeal.Errors.{Error as SealError}
use ai_po_w_unified_dag.Zkml.Prover.{Verifier, Error as ZkmlError}
use ai_po_w_unified_dag.Evm.Receipts.{Error as EvmError}
use ai_po_w_unified_dag.Engine.Envelope.{Error as EnvelopeError}
use ai_po_w_unified_dag.Engine.Quantity.{write_hex}

-- A time.Time: the seconds since 1970, and the nanoseconds of the second.
pub record Time : Type 0 where
  pub unix : ℤ
  pub nanos : ℕ

unfoldable pub after : Time → Time → Bool
after t u = ltb_int u.unix t.unix || (u.unix == t.unix && ltb u.nanos t.nanos)

-- `fmt.Sprintf("0x%x", timestamp.Unix())`
unfoldable pub format_unix : ℤ → Bytes
format_unix (pos n) = codes "0x" ++ write_hex 16 n []
format_unix (negsuc n) = codes "0x-" ++ write_hex 16 (n + 1) []

pub record Environment : Type 0 where
  -- time.Parse in the layout RFC3339Nano
  pub parse_time : Bytes → Option Time
  -- time.Now().UTC().Add(2 * time.Minute)
  pub soon : Time
  -- json.Unmarshal of an AISeal proof
  pub unmarshal_proof : Bytes → Option Proof
  -- strings.EqualFold
  pub equal_fold : Bytes → Bytes → Bool
  -- whether Validate of the execution engine returns no error now
  pub execution_accepts : ExecutionPayloadEnvelope → Bool

pub record Node : Type 0 where
  pub id : Bytes
  pub validators : ValidatorSet
  pub difficulty : ℕ  -- uint8
  pub manifest_root : Bytes
  pub ai_seal_manifest : Option Manifest
  pub ai_seal_target : Bytes
  pub min_pow_samples : ℤ
  pub min_tensor_samples : ℤ
  -- whether Verify of the runner returns no error
  pub runner_accepts : AiJob → AiResult → Bool
  pub zkml_verifier : Option Verifier
  pub min_zkml_proofs : ℕ
  -- the keys of the maps that hold `true`
  pub validated_execution : List Bytes
  pub validated_blocks : List Bytes
  pub validated_zkml : List Bytes

pub data Error : Type 0 where
  duplicate_proof proof_count unexpected_proofs duplicate_ticket : Error
  not_a_validator challenge_mismatch result_hash_mismatch policy_mismatch : Error
  missing_proof content_mismatch seal_too_large seal_not_json ticket_binding : Error
  dummy_mismatch bad_signature : Error
  seal_rejected : SealError → Error
  ticket_rejected : TicketError → Error
  certificate_hash too_few_attestations attestation_count duplicate_zkml_proof : Error
  unexpected_zkml_proofs too_few_zkml_proofs zkml_proof_count duplicate_attestation : Error
  no_ticket attestation_mismatch zkml_binding unexpected_zkml_commitment : Error
  missing_zkml_proof zkml_hash_mismatch zkml_statement_mismatch : Error
  zkml_rejected : ZkmlError → Error
  bad_version bad_job runner_rejected input_commitment output_commitment digest_mismatch : Error
  scheme_mismatch receipt_root_mismatch bad_timestamp timestamp_in_future : Error
  evm_rejected : EvmError → Error
  evm_root_mismatch execution_commitment : Error
  envelope_rejected : EnvelopeError → Error
  execution_timestamp execution_rejected tickets_root_mismatch ai_proofs_root_mismatch : Error
  result_qc_root_mismatch zkml_proofs_root_mismatch too_few_tickets : Error
  winner_mismatch proposer_mismatch : Error

module _ ⦃v : Environment⦄ where
  unfoldable pub equal_hash : Bytes → Bytes → Bool
  equal_hash a b = v.equal_fold (trim_prefix_2 48 120 a) (trim_prefix_2 48 120 b)
