-- ===== src/Engine/Envelope.antt =====
-- internal/engine/engine.go: ValidateEnvelope, isHash32, zeroHash, zeroAddress and normalizeHash.
use ai_po_w_unified_dag.Prelude.{
  List, [], ◌∷◌, ◌++◌, Bool, true, false, ◌&&◌, ◌||◌, not, Option, none, some, Bytes, Result, ◌>>◌,
  fail_if, if◌then◌else◌, length, take, drop, replicate, codes, ◌==◌, ◌/=◌, bytes_eq, nat_eq,
}
use ai_po_w_unified_dag.Go.Hex.{from_hex_char}
use ai_po_w_unified_dag.Go.Text.{trim_prefix_2}
use ai_po_w_unified_dag.Protocol.{Crypto, ExecutionPayloadEnvelope}
use ai_po_w_unified_dag.AiSeal.Encoding.{to_lower, has_prefix_0x}
use ai_po_w_unified_dag.Engine.Quantity.{parse_uint_16, parse_quantity}

pub data Error : Type 0 where
  unsupported_fork : Bytes → Error
  incomplete_envelope bad_beacon_root bad_blob_hash bad_block_number bad_timestamp : Error

unfoldable pub fork_osaka : Bytes
fork_osaka = codes "osaka"

unfoldable pub fork_amsterdam : Bytes
fork_amsterdam = codes "amsterdam"

unfoldable pub all_hex : Bytes → Bool
all_hex [] = true
all_hex (b ∷ bs) = elim (from_hex_char b) [ none ↦ false | some v ↦ all_hex bs ]

abbrev pub is_some {ℓ} : {A : Type ℓ} → Option A → Bool
is_some none = false
is_some (some a) = true

unfoldable pub is_hash_32 : Bytes → Bool
is_hash_32 value =
    let v = trim_prefix_2 48 120 value in
    length v == 64 && is_some (parse_uint_16 (take 16 v)) && all_hex (drop 16 v)

unfoldable pub all_hashes : List Bytes → Bool
all_hashes [] = true
all_hashes (hash ∷ hashes) = is_hash_32 hash && all_hashes hashes

unfoldable pub validate_envelope : ExecutionPayloadEnvelope → Result Error (Unit {0})
validate_envelope e = do
  fail_if (e.fork /= fork_osaka && e.fork /= fork_amsterdam) (unsupported_fork e.fork)
  fail_if
      (length e.payload == 0
        || not (is_hash_32 e.block_hash)
        || not (is_hash_32 e.parent_hash)
        || not (is_hash_32 e.state_root))
      incomplete_envelope
  fail_if (not (is_hash_32 e.parent_beacon_block_root)) bad_beacon_root
  fail_if (not (all_hashes e.expected_blob_versioned_hashes)) bad_blob_hash
  fail_if (not (is_some (parse_quantity e.block_number))) bad_block_number
  fail_if (not (is_some (parse_quantity e.timestamp))) bad_timestamp

unfoldable pub zero_hash : Bytes
zero_hash = codes "0x" ++ replicate 64 48

unfoldable pub zero_address : Bytes
zero_address = codes "0x" ++ replicate 40 48

module _ ⦃c : Crypto⦄ where
  unfoldable pub normalize_hash : Bytes → Bytes
  normalize_hash value =
      if value == []
      then zero_hash
      else if not (has_prefix_0x value)
      then 48 ∷ 120 ∷ value
      else to_lower value
