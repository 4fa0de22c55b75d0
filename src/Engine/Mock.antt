-- ===== src/Engine/Mock.antt =====
-- internal/engine/mock.go: the Mock engine. A JSON object is the list of its entries; json.Unmarshal
-- and strings.EqualFold are parameters.
use ai_po_w_unified_dag.Prelude.{
  ℕ, ◌+◌, List, [], ◌∷◌, ◌++◌, Bool, ◌||◌, not, Option, none, some, Bytes, Result, ok, err, ◌>>◌,
  fail_if, if◌then◌else◌, codes, replicate, lookup, insert, ltb, u64, ◌==◌, ◌/=◌, bytes_eq, nat_eq,
}
use ai_po_w_unified_dag.Prelude.Results.{map_err}
use ai_po_w_unified_dag.Protocol.{ExecutionPayloadEnvelope, Crypto, hash_bytes, hash_json}
use ai_po_w_unified_dag.Protocol.Primitives.{
  JsonValue, text, no_items, mock_state_fields, json_object,
}
use ai_po_w_unified_dag.Engine.Quantity.{quantity, parse_quantity}
use ai_po_w_unified_dag.Engine.Envelope.{
  Error as EnvelopeError, validate_envelope, fork_osaka, fork_amsterdam, zero_hash, zero_address,
  normalize_hash,
}

-- A `map[string]any`.
abbrev pub Payload : Type 0
Payload = List (Bytes × JsonValue)

pub record Json : Type 0 where
  -- json.Unmarshal into a map: no value for an error, and the map, which is nil for "null"
  pub unmarshal : Bytes → Option (Option Payload)
  pub equal_fold : Bytes → Bytes → Bool

pub record Mock : Type 0 where
  pub fork : Bytes
  pub head : Bytes
  pub height : ℕ  -- uint64

-- engine.BuildInput
pub record BuildInput : Type 0 where
  pub timestamp : ℕ  -- uint64
  pub prev_randao : Bytes
  pub suggested_fee_recipient : Bytes
  pub parent_beacon_block_root : Bytes
  pub slot_number : ℕ  -- uint64
  pub target_gas_limit : ℕ  -- uint64

-- `nil_map` is a panic: the code writes to a map that is nil.
pub data Error : Type 0 where
  no_timestamp not_on_head bad_json hash_mismatch state_mismatch bad_number nil_map : Error
  bad_envelope : EnvelopeError → Error

-- `value, _ := m[key].(string)`
unfoldable pub text_at : Bytes → Payload → Bytes
text_at key m = elim (lookup key m) [ some (text t) ↦ t | _ ↦ [] ]

module _ ⦃c : Crypto⦄ where
  unfoldable pub new_mock : Bytes → Bytes → Mock
  new_mock fork genesis = record {
    fork = if fork == [] then fork_osaka else fork;
    head = normalize_hash genesis;
    height = 0;
  }

  unfoldable pub mock_state_root : Mock → BuildInput → Bytes
  mock_state_root m input = hash_json (
      mock_state_fields (codes "AIDCHAIN_MOCK_EXECUTION_STATE_V1") m.head input.timestamp
        (u64 (m.height + 1)))

  -- The payload before its hash is set.
  unfoldable pub build_payload : Mock → BuildInput → Payload
  build_payload m input =
      let root = mock_state_root m input in
      let fee =
        if input.suggested_fee_recipient == []
        then zero_address
        else input.suggested_fee_recipient in
      let gas = if ltb input.target_gas_limit 30000000 then 30000000 else input.target_gas_limit in
      (codes "parentHash", text m.head)
      ∷ (codes "feeRecipient", text fee)
      ∷ (codes "stateRoot", text root)
      ∷ (codes "receiptsRoot", text (hash_bytes (codes "mock-receipts" ++ root)))
      ∷ (codes "logsBloom", text (codes "0x" ++ replicate 512 48))
      ∷ (codes "prevRandao", text (normalize_hash input.prev_randao))
      ∷ (codes "blockNumber", text (quantity (u64 (m.height + 1))))
      ∷ (codes "gasLimit", text (quantity gas))
      ∷ (codes "gasUsed", text (codes "0x0"))
      ∷ (codes "timestamp", text (quantity input.timestamp))
      ∷ (codes "extraData", text (codes "0x"))
      ∷ (codes "baseFeePerGas", text (codes "0x1"))
      ∷ (codes "blockHash", text zero_hash)
      ∷ (codes "transactions", no_items)
      ∷ (codes "withdrawals", no_items)
      ∷ (codes "blobGasUsed", text (codes "0x0"))
      ∷ (codes "excessBlobGas", text (codes "0x0"))
      ∷ (if m.fork == fork_amsterdam
          then (codes "blockAccessList", text (codes "0xc0"))
            ∷ (codes "slotNumber", text (quantity input.slot_number))
            ∷ []
          else [])

  -- The envelope that Build returns.
  abbrev pub built : Mock → BuildInput → ExecutionPayloadEnvelope
  built m input =
      let plain = build_payload m input in
      let block_hash = hash_json (json_object plain) in
      record {
        fork = m.fork;
        payload = c.marshal (json_object (insert (codes "blockHash") (text block_hash) plain));
        block_hash = block_hash;
        parent_hash = m.head;
        state_root = mock_state_root m input;
        block_number = quantity (u64 (m.height + 1));
        timestamp = quantity input.timestamp;
        parent_beacon_block_root = normalize_hash input.parent_beacon_block_root;
        expected_blob_versioned_hashes = [];
        execution_requests = [];
        block_value = codes "0x0";
      }

  unfoldable pub build : Mock → BuildInput → Result Error ExecutionPayloadEnvelope
  build m input = if input.timestamp == 0 then err no_timestamp else ok (built m input)

module _ ⦃j : Json⦄ ⦃c : Crypto⦄ where
  -- The checks of a payload that was read.
  unfoldable pub check_payload : ExecutionPayloadEnvelope → Payload → Result Error (Unit {0})
  check_payload e m = do
    let got = text_at (codes "blockHash") m
    let blank = insert (codes "blockHash") (text zero_hash) m
    let want = hash_json (json_object blank)
    fail_if (not (j.equal_fold got want) || not (j.equal_fold got e.block_hash)) hash_mismatch
    fail_if (not (j.equal_fold (text_at (codes "stateRoot") blank) e.state_root)) state_mismatch

  unfoldable pub read_payload : ExecutionPayloadEnvelope → Result Error (Unit {0})
  read_payload e = elim (j.unmarshal e.payload) [
    | none ↦ err bad_json
    | some none ↦ err nil_map
    | some (some m) ↦ check_payload e m
  ]

  unfoldable pub validate_locked : Mock → ExecutionPayloadEnvelope → Result Error (Unit {0})
  validate_locked m e = do
    map_err bad_envelope (validate_envelope e)
    fail_if (e.fork /= m.fork || not (j.equal_fold e.parent_hash m.head)) not_on_head
    read_payload e

  unfoldable pub advance : Mock → ExecutionPayloadEnvelope → Mock × Result Error (Unit {0})
  advance m e = elim (parse_quantity e.block_number) [
    | none ↦ (m, err bad_number)
    | some number ↦ (record m { head = e.block_hash; height = number }, ok tt)
  ]

  unfoldable pub finalize : Mock → ExecutionPayloadEnvelope → Mock × Result Error (Unit {0})
  finalize m e =
      if j.equal_fold e.block_hash m.head
      then (m, ok tt)
      else elim (validate_locked m e) [ err x ↦ (m, err x) | ok _ ↦ advance m e ]
