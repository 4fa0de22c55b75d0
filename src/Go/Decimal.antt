-- ===== src/Go/Decimal.antt =====
-- strconv.FormatUint in base 10, and (*big.Int).SetString in base 10.
use native.Mathlib.Nat.{pow-suc, mul_assoc}
use ai_po_w_unified_dag.Prelude.{
  ℕ, zero, suc, ◌+◌, ◌-◌, ◌*◌, ◌/◌, ◌%◌, ◌^◌, ◌<◌, ◌≡◌, [], ◌∷◌, Option, none, some, Bytes, arith,
  if◌then◌else◌, leb, ltb, ◌&&◌, ◌==◌, nat_eq, length, true, ap, false, Bool-cases, inl, ◌∙◌, inr,
  ◌≤◌,
}
use ai_po_w_unified_dag.Prelude.Ints.{ℤ, pos, negsuc}

-- The digits of a number before some text, with fuel for its digits.
unfoldable pub write_digits : ℕ → ℕ → Bytes → Bytes
write_digits zero v more = more
write_digits (suc fuel) v more =
    let text = (48 + v % 10) ∷ more in if ltb v 10 then text else write_digits fuel (v / 10) text

-- A uint64 has 20 digits at most.
unfoldable pub format_uint : ℕ → Bytes
format_uint v = write_digits 20 v []

-- The number that some digits write after another.
unfoldable pub read_digits : ℕ → Bytes → Option ℕ
read_digits acc [] = some acc
read_digits acc (d ∷ ds) =
    if leb 48 d && leb d 57 then read_digits (acc * 10 + (d - 48)) ds else none

-- -n
abbrev pub negate : ℕ → ℤ
negate zero = pos zero
negate (suc n) = negsuc n

unfoldable pub set_string : Bytes → Option ℤ
set_string [] = none
set_string (d ∷ ds) =
    if d == 45
    then (if length ds == 0
        then none
        else elim (read_digits 0 ds) [ none ↦ none | some n ↦ some (negate n) ])
    else if d == 43
    then (if length ds == 0
        then none
        else elim (read_digits 0 ds) [ none ↦ none | some n ↦ some (pos n) ])
    else elim (read_digits 0 (d ∷ ds)) [ none ↦ none | some n ↦ some (pos n) ]

-- (*big.Int).String of a number that is not negative
unfoldable pub format_big : ℕ → Bytes
format_big v = write_digits (suc v) v []

digit :
    (acc v : ℕ) (more : Bytes)
    → read_digits acc ((48 + v % 10) ∷ more) ≡ read_digits (acc * 10 + v % 10) more
unfolding read_digits
digit acc v more =
    let small : v % 10 < 10 = omega arith in
    let is_digit : (leb 48 (48 + v % 10) && leb (48 + v % 10) 57) ≡ true = ground arith in
    let value : 48 + v % 10 - 48 ≡ v % 10 = omega arith in rw (is_digit, value)

shift : (acc p q v : ℕ) → q ≡ p * 10 → (acc * p + v / 10) * 10 + v % 10 ≡ acc * q + v
shift acc p q v h = rw h (omega (arith, mul_assoc acc p 10))

-- Reading what was written after a number shifts the number and adds the new one.
read_digits-write_digits :
    (fuel v : ℕ) (more : Bytes) (acc : ℕ)
    → v < 10 ^ fuel
    → (d : ℕ) × (read_digits acc (write_digits fuel v more) ≡ read_digits (acc * 10 ^ d + v) more)
unfolding write_digits
read_digits-write_digits zero v more acc h =
    let none_left : v ≡ 0 = omega arith in (0, ap (λ n. read_digits n more) (omega arith))
read_digits-write_digits (suc fuel) v more acc h = elim (Bool-cases (ltb v 10)) [
  | inl last ↦
      (1, rw (last, write_digits) (digit acc v more ∙ ap (λ n. read_digits n more) (ground arith)))
  | inr longer ↦
      let (d, e) =
        read_digits-write_digits fuel (v / 10) ((48 + v % 10) ∷ more) acc
          (omega (arith, pow-suc 10 fuel)) in
      (
        suc d,
        rw (longer, write_digits)
            (e
              ∙ (digit (acc * 10 ^ d + v / 10) v more
                  ∙ ap (λ n. read_digits n more)
                      (shift acc (10 ^ d) (10 ^ suc d) v (pow-suc 10 d)))),
      )
]

BeginsWithDigit : Bytes → Type 0
BeginsWithDigit [] = ⊥
BeginsWithDigit (d ∷ ds) = (48 ≤ d) × (d < 58)

write_digits-BeginsWithDigit :
    (fuel v : ℕ) (more : Bytes) → BeginsWithDigit more → BeginsWithDigit (write_digits fuel v more)
unfolding write_digits BeginsWithDigit
write_digits-BeginsWithDigit zero v more h = h
write_digits-BeginsWithDigit (suc fuel) v more h = elim (Bool-cases (ltb v 10)) [
  | inl last ↦ rw (last, write_digits) (omega arith, omega arith)
  | inr longer ↦
      rw (longer, write_digits)
        (write_digits-BeginsWithDigit fuel (v / 10) ((48 + v % 10) ∷ more)
          (omega arith, omega arith))
]

set_string-BeginsWithDigit :
    (text : Bytes) (n : ℕ)
    → BeginsWithDigit text
    → read_digits 0 text ≡ some n
    → set_string text ≡ some (pos n)
unfolding set_string BeginsWithDigit
set_string-BeginsWithDigit [] n b h = elim b [ ]
set_string-BeginsWithDigit (d ∷ ds) n b h =
    let no_minus : (d == 45) ≡ false = ground arith in
    let no_plus : (d == 43) ≡ false = ground arith in rw (no_minus, no_plus, h)

set_string-write_digits :
    (fuel v : ℕ) → v < 10 ^ suc fuel → set_string (write_digits (suc fuel) v []) ≡ some (pos v)
unfolding read_digits write_digits BeginsWithDigit
set_string-write_digits fuel v h =
    let (d, e) = read_digits-write_digits (suc fuel) v [] 0 h in
    let begins : BeginsWithDigit (write_digits (suc fuel) v []) = elim (Bool-cases (ltb v 10)) [
      | inl last ↦ rw (last, write_digits) (omega arith, omega arith)
      | inr longer ↦
          rw (longer, write_digits)
            (write_digits-BeginsWithDigit fuel (v / 10) ((48 + v % 10) ∷ [])
              (omega arith, omega arith))
    ] in
    set_string-BeginsWithDigit (write_digits (suc fuel) v []) v begins (e ∙ ap some (omega arith))

below_power : (n : ℕ) → n < 10 ^ n
below_power zero = omega arith
below_power (suc n) = omega (arith, below_power n, pow-suc 10 n)

-- What FormatUint writes of a uint64, SetString reads.
pub set_string-format_uint : (v : ℕ) → v < 2 ^ 64 → set_string (format_uint v) ≡ some (pos v)
unfolding format_uint
set_string-format_uint v h = set_string-write_digits 19 v (omega arith)

pub set_string-format_big : (v : ℕ) → set_string (format_big v) ≡ some (pos v)
unfolding format_big
set_string-format_big v = set_string-write_digits v v (omega (arith, below_power v, pow-suc 10 v))
