-- ===== src/Engine/Quantity.antt =====
-- internal/engine/engine.go: quantity and parseQuantity, and strconv.ParseUint in base 16.
use native.Mathlib.Nat.{pow-suc, mul_assoc}
use ai_po_w_unified_dag.Prelude.{
  ℕ, zero, suc, ◌+◌, ◌*◌, ◌/◌, ◌%◌, ◌^◌, ◌<◌, ◌≡◌, [], ◌∷◌, Option, none, some, Bytes, arith,
  if◌then◌else◌, ltb, ◌==◌, nat_eq, length, true, ap, false, Bool-cases, inl, ◌∙◌, inr, refl,
}
use ai_po_w_unified_dag.Go.Hex.{hex_digit, from_hex_char, from_hex_char-hex_digit}
use ai_po_w_unified_dag.Go.Text.{trim_prefix_2}

-- The digits of a number in base 16 before some text, with fuel for its digits.
unfoldable pub write_hex : ℕ → ℕ → Bytes → Bytes
write_hex zero v more = more
write_hex (suc fuel) v more =
    let text = hex_digit (v % 16) ∷ more in if ltb v 16 then text else write_hex fuel (v / 16) text

-- `fmt.Sprintf("0x%x", value)`: a uint64 has 16 digits at most.
unfoldable pub quantity : ℕ → Bytes
quantity v = 48 ∷ 120 ∷ write_hex 16 v []

-- The number that some digits write after another.
unfoldable pub read_hex : ℕ → Bytes → Option ℕ
read_hex acc [] = some acc
read_hex acc (d ∷ ds) = elim (from_hex_char d) [ none ↦ none | some v ↦ read_hex (acc * 16 + v) ds ]

abbrev in_range : ℕ → Option ℕ
in_range v = if ltb v (2 ^ 64) then some v else none

-- `strconv.ParseUint(value, 16, 64)`
unfoldable pub parse_uint_16 : Bytes → Option ℕ
parse_uint_16 [] = none
parse_uint_16 (d ∷ ds) = elim (read_hex 0 (d ∷ ds)) [ none ↦ none | some v ↦ in_range v ]

unfoldable pub parse_quantity : Bytes → Option ℕ
parse_quantity value =
    let v = trim_prefix_2 48 120 value in if length v == 0 then none else parse_uint_16 v

digit :
    (acc v : ℕ) (more : Bytes)
    → read_hex acc (hex_digit (v % 16) ∷ more) ≡ read_hex (acc * 16 + v % 16) more
unfolding read_hex
digit acc v more =
    let known = from_hex_char-hex_digit (v % 16) (omega arith) in rw (known, read_hex) refl

shift : (acc p q v : ℕ) → q ≡ p * 16 → (acc * p + v / 16) * 16 + v % 16 ≡ acc * q + v
shift acc p q v h = rw h (omega (arith, mul_assoc acc p 16))

-- Reading what was written after a number shifts the number and adds the new one.
read_hex-write_hex :
    (fuel v : ℕ) (more : Bytes) (acc : ℕ)
    → v < 16 ^ fuel
    → (d : ℕ) × (read_hex acc (write_hex fuel v more) ≡ read_hex (acc * 16 ^ d + v) more)
unfolding write_hex
read_hex-write_hex zero v more acc h =
    let nothing : v ≡ 0 = omega arith in (0, ap (λ n. read_hex n more) (omega arith))
read_hex-write_hex (suc fuel) v more acc h = elim (Bool-cases (ltb v 16)) [
  | inl last ↦
      (1, rw (last, write_hex) (digit acc v more ∙ ap (λ n. read_hex n more) (ground arith)))
  | inr longer ↦
      let (d, e) =
        read_hex-write_hex fuel (v / 16) (hex_digit (v % 16) ∷ more) acc
          (omega (arith, pow-suc 16 fuel)) in
      let next = digit (acc * 16 ^ d + v / 16) v more in
      let sum = shift acc (16 ^ d) (16 ^ suc d) v (pow-suc 16 d) in
      (suc d, rw (longer, write_hex) (e ∙ (next ∙ ap (λ n. read_hex n more) sum)))
]

write_hex-nonempty :
    (fuel v : ℕ) (d : ℕ) (more : Bytes)
    → (e : ℕ) × (rest : Bytes) × (write_hex fuel v (d ∷ more) ≡ e ∷ rest)
unfolding write_hex
write_hex-nonempty zero v d more = (d, more, refl)
write_hex-nonempty (suc fuel) v d more = elim (Bool-cases (ltb v 16)) [
  | inl last ↦ (hex_digit (v % 16), d ∷ more, rw (last, write_hex) refl)
  | inr longer ↦
      let (e, rest, same) = write_hex-nonempty fuel (v / 16) (hex_digit (v % 16)) (d ∷ more) in
      (e, rest, rw (longer, write_hex) same)
]

write_hex-present : (fuel v : ℕ) → (e : ℕ) × (rest : Bytes) × (write_hex (suc fuel) v [] ≡ e ∷ rest)
unfolding write_hex
write_hex-present fuel v = elim (Bool-cases (ltb v 16)) [
  | inl last ↦ (hex_digit (v % 16), [], rw (last, write_hex) refl)
  | inr longer ↦
      let (e, rest, same) = write_hex-nonempty fuel (v / 16) (hex_digit (v % 16)) [] in
      (e, rest, rw (longer, write_hex) same)
]

parse_uint_16-read_hex :
    (text : Bytes) (v : ℕ)
    → (e : ℕ) × (rest : Bytes) × (text ≡ e ∷ rest)
    → read_hex 0 text ≡ some v
    → v < 2 ^ 64
    → ((length text == 0) ≡ false) × (parse_uint_16 text ≡ some v)
unfolding parse_uint_16
parse_uint_16-read_hex [] v (e, rest, same) h fits = cc same
parse_uint_16-read_hex (d ∷ ds) v begins h fits =
    let small : ltb v (2 ^ 64) ≡ true = ground arith in
    (ground arith, rw (h, parse_uint_16) (rw (small, in_range) refl))

nothing_before : (d v : ℕ) → 0 * 16 ^ d + v ≡ v
nothing_before d v = omega arith

-- parseQuantity reads what quantity writes of a uint64.
pub parse_quantity-quantity : (v : ℕ) → v < 2 ^ 64 → parse_quantity (quantity v) ≡ some v
unfolding parse_quantity quantity trim_prefix_2 read_hex
parse_quantity-quantity v fits =
    let (d, e) = read_hex-write_hex 16 v [] 0 (omega arith) in
    let value : read_hex 0 (write_hex 16 v []) ≡ some v = e ∙ ap some (nothing_before d v) in
    let (present, same) =
      parse_uint_16-read_hex (write_hex 16 v []) v (write_hex-present 15 v) value fits in
    rw (present, parse_quantity) same
