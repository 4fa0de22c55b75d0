-- ===== src/AiPow/Difficulty.antt =====
-- internal/aipow/dummy.go: MeetsDifficulty.
use ai_po_w_unified_dag.Prelude.{
  ℕ, ◌-◌, ◌*◌, ◌%◌, ◌^◌, [], ◌∷◌, Bool, true, false, none, some, Bytes, if◌then◌else◌, leb, length,
  ◌==◌, ◌/=◌, nat_eq,
}
use Prim.Native.Nat.{bit_and}
use ai_po_w_unified_dag.Go.Hex.{decode_string}

-- sha256.Size
abbrev pub hash_size : ℕ
hash_size = 32

-- `raw[2:]` if the text begins with "0x".
unfoldable pub strip_0x : Bytes → Bytes
strip_0x [] = []
strip_0x (a ∷ []) = a ∷ []
strip_0x (a ∷ b ∷ rest) = if a == 48 then if b == 120 then rest else a ∷ b ∷ rest else a ∷ b ∷ rest

-- `byte(0xff << (8 - remaining))`
abbrev pub high_mask : ℕ → ℕ
high_mask remaining = 255 * 2 ^ (8 - remaining) % 256

-- The loop over the bytes of the hash.
unfoldable pub leading_zeros : ℕ → Bytes → Bool
leading_zeros remaining [] = remaining == 0
leading_zeros remaining (v ∷ vs) =
    let rest = leading_zeros (remaining - 8) vs in
    if remaining == 0
    then true
    else if leb 8 remaining
    then if v /= 0 then false else rest
    else bit_and v (high_mask remaining) == 0

unfoldable pub meets_difficulty : Bytes → ℕ → Bool
meets_difficulty hash difficulty = elim (decode_string (strip_0x hash)) [
  | none ↦ false
  | some b ↦ if length b /= hash_size then false else leading_zeros difficulty b
]
