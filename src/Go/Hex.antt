-- ===== src/Go/Hex.antt =====
-- encoding/hex: EncodeToString writes lower-case digits, DecodeString reads both cases.
use ai_po_w_unified_dag.Prelude.{
  ℕ, ◌+◌, ◌-◌, ◌*◌, ◌/◌, ◌%◌, ◌<◌, ◌≡◌, refl, [], ◌∷◌, Option, none, some, arith, Bytes, ltb, leb,
  if◌then◌else◌, ◌&&◌, All, length, ◌==◌, false, nat_eq,
}

unfoldable pub hex_digit : ℕ → ℕ
hex_digit d = if ltb d 10 then d + 48 else d + 87

unfoldable pub encode_to_string : Bytes → Bytes
unfolding hex_digit
encode_to_string [] = []
encode_to_string (b ∷ bs) = hex_digit (b / 16) ∷ hex_digit (b % 16) ∷ encode_to_string bs

-- The value of a digit.
unfoldable pub from_hex_char : ℕ → Option ℕ
from_hex_char c =
    if leb 48 c && leb c 57
    then some (c - 48)
    else if leb 97 c && leb c 102
    then some (c - 87)
    else if leb 65 c && leb c 70
    then some (c - 55)
    else none

abbrev byte_of : Option ℕ → Option ℕ → Option Bytes → Option Bytes
byte_of (some h) (some l) (some bs) = some ((h * 16 + l) ∷ bs)
byte_of (some h) (some l) none = none
byte_of (some h) none _ = none
byte_of none _ _ = none

-- `none` where DecodeString returns an error: an odd length, or a byte that is no digit.
unfoldable pub decode_string : Bytes → Option Bytes
unfolding from_hex_char
decode_string [] = some []
decode_string (a ∷ []) = none
decode_string (a ∷ b ∷ rest) = byte_of (from_hex_char a) (from_hex_char b) (decode_string rest)

pub from_hex_char-hex_digit : (d : ℕ) → d < 16 → from_hex_char (hex_digit d) ≡ some d
unfolding from_hex_char hex_digit
from_hex_char-hex_digit d h = ground arith

-- What is encoded decodes to itself.
pub decode_string-encode_to_string :
    (bs : Bytes) → All (λ b. b < 256) bs → decode_string (encode_to_string bs) ≡ some bs
unfolding decode_string encode_to_string
decode_string-encode_to_string [] h = refl
decode_string-encode_to_string (b ∷ bs) (hb, h) = ground (
  arith,
  from_hex_char-hex_digit (b / 16),
  from_hex_char-hex_digit (b % 16),
  decode_string-encode_to_string bs h,
)

pub length-encode_to_string : (bs : Bytes) → length (encode_to_string bs) ≡ 2 * length bs
unfolding encode_to_string
length-encode_to_string [] = refl
length-encode_to_string (b ∷ bs) = omega (arith, length-encode_to_string bs)

-- What a digit is not: a space, a byte outside ASCII, or an "X".
abbrev pub IsPlain : ℕ → Type 0
IsPlain d = (32 < d) × (d < 128) × ((d == 88) ≡ false)

hex_digit-IsPlain : (d : ℕ) → d < 16 → IsPlain (hex_digit d)
unfolding hex_digit
hex_digit-IsPlain d h = (ground arith, ground arith, ground arith)

pub encode_to_string-IsPlain :
    (bs : Bytes) → All (λ b. b < 256) bs → All IsPlain (encode_to_string bs)
unfolding encode_to_string
encode_to_string-IsPlain [] h = tt
encode_to_string-IsPlain (b ∷ bs) (hb, h) = (
  hex_digit-IsPlain (b / 16) (omega arith),
  (hex_digit-IsPlain (b % 16) (omega arith), encode_to_string-IsPlain bs h),
)

-- A byte of ASCII that is no capital letter
abbrev pub IsSmall : ℕ → Type 0
IsSmall d = (d < 128) × ((leb 65 d && leb d 90) ≡ false)

hex_digit-IsSmall : (d : ℕ) → d < 16 → IsSmall (hex_digit d)
unfolding hex_digit
hex_digit-IsSmall d h = (ground arith, ground arith)

pub encode_to_string-IsSmall :
    (bs : Bytes) → All (λ b. b < 256) bs → All IsSmall (encode_to_string bs)
unfolding encode_to_string
encode_to_string-IsSmall [] h = tt
encode_to_string-IsSmall (b ∷ bs) (hb, h) = (
  hex_digit-IsSmall (b / 16) (omega arith),
  (hex_digit-IsSmall (b % 16) (omega arith), encode_to_string-IsSmall bs h),
)
