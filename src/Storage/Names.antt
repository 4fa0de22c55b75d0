-- ===== src/Storage/Names.antt =====
-- The names of objects (internal/storage/store.go): what normalizeID and validID make of a hash.
use ai_po_w_unified_dag.Prelude.{
  refl, ap, ◌<◌, ◌≡◌, [], ◌∷◌, true, Bytes, All, length, map, arith, nat_eq, bytes_eq,
}
use ai_po_w_unified_dag.Go.Hex.{
  encode_to_string, IsSmall, encode_to_string-IsSmall, decode_string-encode_to_string,
  length-encode_to_string, encode_to_string-IsPlain,
}
use ai_po_w_unified_dag.Go.Text.{trim_space-IsPlain}
use ai_po_w_unified_dag.Protocol.{Crypto, hash_bytes}
use ai_po_w_unified_dag.AiSeal.Encoding.{to_lower, has_prefix_0x, is_ascii, lower_byte}
use ai_po_w_unified_dag.Storage.Store.{object_id, normalize_id, valid_id}

-- SHA-256 returns 32 bytes.
pub record Sha256Sized (c : Crypto) : Type 0 where
  pub bytes : (b : Bytes) → All (λ x. x < 256) (c.sha256 b)
  pub size : (b : Bytes) → length (c.sha256 b) ≡ 32

to_lower-IsSmall_bytes : (s : Bytes) → All IsSmall s → (is_ascii s ≡ true) × (map lower_byte s ≡ s)
unfolding is_ascii lower_byte
to_lower-IsSmall_bytes [] h = (refl, refl)
to_lower-IsSmall_bytes (d ∷ s) (hd, h) =
    let (ascii, same) = to_lower-IsSmall_bytes s h in
    let small = hd.0 in let kept = hd.1 in (ground arith, rw kept (ap (◌∷◌ d) same))

module _ ⦃c : Crypto⦄ where
  to_lower-IsSmall : (s : Bytes) → All IsSmall s → to_lower s ≡ s
  unfolding to_lower
  to_lower-IsSmall s h = let (ascii, same) = to_lower-IsSmall_bytes s h in rw ascii same

  -- The name of an object is in the form that normalizeID gives.
  pub normalize_id-object_id :
      (object : Bytes) → Sha256Sized c → normalize_id (object_id object) ≡ object_id object
  unfolding normalize_id hash_bytes has_prefix_0x
  normalize_id-object_id object sized =
      let plain = encode_to_string-IsPlain (c.sha256 object) (sized.bytes object) in
      let small = encode_to_string-IsSmall (c.sha256 object) (sized.bytes object) in
      let trimmed = trim_space-IsPlain (48 ∷ 120 ∷ encode_to_string (c.sha256 object)) (
        (omega arith, omega arith, ground arith),
        ((omega arith, omega arith, ground arith), plain),
      ) in
      let lower =
        to_lower-IsSmall (48 ∷ 120 ∷ encode_to_string (c.sha256 object))
          ((omega arith, ground arith), ((omega arith, ground arith), small)) in
      rw (trimmed, lower) refl

  pub valid_id-object_id : (object : Bytes) → Sha256Sized c → valid_id (object_id object) ≡ true
  unfolding valid_id hash_bytes has_prefix_0x
  valid_id-object_id object sized =
      let size : length (encode_to_string (c.sha256 object)) ≡ 64 =
        omega (arith, length-encode_to_string (c.sha256 object), sized.size object) in
      rw (size, decode_string-encode_to_string (c.sha256 object) (sized.bytes object)) refl
