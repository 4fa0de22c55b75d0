-- ===== src/AiSeal/Encoding.antt =====
-- internal/aiseal/hash.go: what is written into the hash, and hashes as text.
use ai_po_w_unified_dag.Prelude.{
  ◌>>=◌, ℕ, ◌%◌, [], ◌∷◌, ◌++◌, ◌||◌, none, some, Bytes, Result, ok, err, if◌then◌else◌, length,
  take, replicate, codes, ◌==◌, ◌/=◌, nat_eq, bytes_eq, map, leb, Bool, not, ◌&&◌, true, ltb, ◌+◌,
  false, lt_bytes,
}
use ai_po_w_unified_dag.Go.Hex.{encode_to_string, decode_string}
use ai_po_w_unified_dag.Go.Text.{trim_space, trim_prefix_2}
use ai_po_w_unified_dag.Go.Binary.{put_uint}
use ai_po_w_unified_dag.Protocol.{Crypto}
use ai_po_w_unified_dag.AiSeal.Errors.{Error, bad_hex, wrong_hash_size}

unfoldable pub write_uint16 : ℕ → Bytes
write_uint16 v = put_uint 2 v

unfoldable pub write_uint32 : ℕ → Bytes
write_uint32 v = put_uint 4 v

unfoldable pub write_uint64 : ℕ → Bytes
write_uint64 v = put_uint 8 v

-- A length goes before the bytes.
unfoldable pub write_bytes : Bytes → Bytes
write_bytes b = write_uint64 (length b) ++ b

abbrev pub write_string : Bytes → Bytes
write_string = write_bytes

-- `copy(out[:], b)` into 32 zero bytes
unfoldable pub copy_32 : Bytes → Bytes
copy_32 b = take 32 (b ++ replicate 32 0)

unfoldable pub decode_hex_bytes : Bytes → Result Error Bytes
decode_hex_bytes value =
    let v = trim_prefix_2 48 88 (trim_prefix_2 48 120 (trim_space value)) in
    if v == [] || length v % 2 /= 0
    then err bad_hex
    else elim (decode_string v) [ none ↦ err bad_hex | some b ↦ ok b ]

unfoldable pub decode_hex_32 : Bytes → Result Error Bytes
decode_hex_32 value = elim (decode_hex_bytes value) [
  | err e ↦ err e
  | ok b ↦ if length b /= 32 then err wrong_hash_size else ok (copy_32 b)
]

unfoldable pub format_hash : Bytes → Bytes
format_hash h = 48 ∷ 120 ∷ encode_to_string h

unfoldable pub lower_byte : ℕ → ℕ
lower_byte b = if leb 65 b && leb b 90 then b + 32 else b

unfoldable pub is_ascii : Bytes → Bool
is_ascii [] = true
is_ascii (b ∷ bs) = ltb b 128 && is_ascii bs

unfoldable pub has_prefix_0x : Bytes → Bool
has_prefix_0x (a ∷ b ∷ rest) = a == 48 && b == 120
has_prefix_0x _ = false

-- `bytes.Compare(hash, target) <= 0`
unfoldable pub hash_meets_target : Bytes → Bytes → Bool
hash_meets_target hash target = not (lt_bytes target hash)

unfoldable pub work_meets_target : Bytes → Bytes → Result Error Bool
work_meets_target work_hash target = do
  work ← decode_hex_32 work_hash
  target_hash ← decode_hex_32 target
  ok (hash_meets_target work target_hash)

module _ ⦃c : Crypto⦄ where
  -- strings.ToLower
  unfoldable pub to_lower : Bytes → Bytes
  to_lower s = if is_ascii s then map lower_byte s else c.to_lower_unicode s

  unfoldable pub normalize_hex : Bytes → Bytes
  normalize_hex value =
      let v = to_lower (trim_space value) in if v == [] || has_prefix_0x v then v else 48 ∷ 120 ∷ v

  unfoldable pub normalize_arbitrary : Bytes → Bytes
  normalize_arbitrary value =
      let v = to_lower (trim_space value) in
      let raw = trim_prefix_2 48 120 v in
      if v == [] then [] else elim (decode_string raw) [
        | none ↦ v
        | some b ↦ if length raw % 2 == 0 then 48 ∷ 120 ∷ raw else v
      ]

  unfoldable pub equal_hex : Bytes → Bytes → Bool
  equal_hex a b = normalize_hex a == normalize_hex b

  -- taggedHash, with what its callback writes
  unfoldable pub tagged_hash : Bytes → Bytes → Bytes
  tagged_hash domain written = copy_32 (c.blake3 (write_string domain ++ written))

  unfoldable pub merkle_node_hash : Bytes → Bytes → Bytes → Bytes
  merkle_node_hash tree_id left right =
      tagged_hash (codes "AIDG_MERKLE_NODE_V1") (write_string tree_id ++ (left ++ right))
