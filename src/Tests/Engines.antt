-- ===== src/Tests/Engines.antt =====
-- A run of the mock engine.
use ai_po_w_unified_dag.Prelude.{
  refl, ◌≡◌, ◌+◌, [], ◌∷◌, false, none, some, ok, err, u64, eq_bytes, codes, insert, replicate,
  bytes_eq, eq_bytes_iff,
}
use ai_po_w_unified_dag.Go.Hex.{encode_to_string, from_hex_char, hex_digit}
use ai_po_w_unified_dag.Go.Text.{trim_prefix_2}
use ai_po_w_unified_dag.Protocol.{Crypto, hash_bytes, hash_json}
use ai_po_w_unified_dag.Protocol.Primitives.{text}
use ai_po_w_unified_dag.Engine.Quantity.{
  quantity, write_hex, parse_quantity, parse_uint_16, read_hex,
}
use ai_po_w_unified_dag.Engine.Envelope.{
  validate_envelope, is_hash_32, all_hex, all_hashes, zero_hash, normalize_hash, fork_osaka,
  fork_amsterdam,
}
use ai_po_w_unified_dag.Engine.Mock.{
  Json, Mock, BuildInput, nil_map, build, built, build_payload, mock_state_root, finalize,
  validate_locked, read_payload,
}
use ai_po_w_unified_dag.Engine.Built.{JsonLaws, finalize-build, finalize-fails}
use ai_po_w_unified_dag.Tests.Demo.{demo}

-- Every value has one encoding and one hash.
abbrev coarse : Crypto
coarse = record demo { marshal = λ v. 1 ∷ []; sha256 = λ b. replicate 32 1 }

abbrev fresh_mock : Mock
fresh_mock = record { fork = fork_osaka; head = zero_hash; height = 0 }

abbrev first_input : BuildInput
first_input = record {
  timestamp = 1700000000;
  prev_randao = [];
  suggested_fee_recipient = [];
  parent_beacon_block_root = [];
  slot_number = 1;
  target_gas_limit = 0;
}

abbrev reading : Json
reading = record {
  unmarshal = λ b. some (
      some (
        insert (codes "blockHash") (text (built ⦃c = coarse⦄ fresh_mock first_input).block_hash)
          (build_payload ⦃c = coarse⦄ fresh_mock first_input)));
  equal_fold = eq_bytes;
}

reading_laws : JsonLaws reading coarse fresh_mock first_input
reading_laws = record { reads = refl; folds = λ t. (eq_bytes_iff t t).1 refl }

built_demo :
    build ⦃c = coarse⦄ fresh_mock first_input ≡ ok (built ⦃c = coarse⦄ fresh_mock first_input)
unfolding build
built_demo = refl

shaped_demo : validate_envelope (built ⦃c = coarse⦄ fresh_mock first_input) ≡ ok tt
unfolding validate_envelope is_hash_32 all_hex all_hashes zero_hash normalize_hash fork_osaka
    fork_amsterdam parse_quantity parse_uint_16 read_hex quantity write_hex trim_prefix_2
    from_hex_char hex_digit encode_to_string hash_bytes hash_json eq_bytes codes mock_state_root
shaped_demo = refl

moved_demo : eq_bytes (built ⦃c = coarse⦄ fresh_mock first_input).block_hash fresh_mock.head ≡ false
unfolding hash_json hash_bytes encode_to_string zero_hash codes eq_bytes hex_digit
moved_demo = refl

finalize-build_example :
    finalize ⦃j = reading⦄ ⦃c = coarse⦄ fresh_mock (built ⦃c = coarse⦄ fresh_mock first_input) ≡ (
      record fresh_mock {
        head = (built ⦃c = coarse⦄ fresh_mock first_input).block_hash;
        height = u64 (fresh_mock.height + 1);
      },
      ok tt,
    )
finalize-build_example =
    finalize-build ⦃j = reading⦄ ⦃c = coarse⦄ fresh_mock first_input
      (built ⦃c = coarse⦄ fresh_mock first_input) reading_laws built_demo shaped_demo moved_demo

-- A payload that is "null".
abbrev reading_null : Json
reading_null = record { unmarshal = λ b. some none; equal_fold = eq_bytes }

null_demo :
    (finalize ⦃j = reading_null⦄ ⦃c = coarse⦄ fresh_mock
      (built ⦃c = coarse⦄ fresh_mock first_input)).1
    ≡ err nil_map
unfolding finalize validate_locked read_payload validate_envelope is_hash_32 all_hex all_hashes
    zero_hash normalize_hash fork_osaka fork_amsterdam parse_quantity parse_uint_16 read_hex
    quantity write_hex trim_prefix_2 from_hex_char hex_digit encode_to_string hash_bytes hash_json
    eq_bytes codes mock_state_root
null_demo = refl

finalize-fails_example :
    ((finalize ⦃j = reading_null⦄ ⦃c = coarse⦄ fresh_mock
        (built ⦃c = coarse⦄ fresh_mock first_input)).0
      ≡ fresh_mock)
    × (reading_null.equal_fold
          (built ⦃c = coarse⦄ fresh_mock first_input).block_hash
          fresh_mock.head
        ≡ false)
finalize-fails_example =
    finalize-fails ⦃j = reading_null⦄ ⦃c = coarse⦄ fresh_mock
      (built ⦃c = coarse⦄ fresh_mock first_input) nil_map null_demo
