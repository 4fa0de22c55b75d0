-- ===== src/AiPow/Bits.antt =====
-- MeetsDifficulty of internal/aipow/dummy.go as a bound on a number.
use ai_po_w_unified_dag.Go.Hex.{encode_to_string, decode_string-encode_to_string}
use native.Mathlib.Numerals.{towards_suc}
use native.Mathlib.Decide.{dec_lt}
use ai_po_w_unified_dag.Prelude.{
  ℕ, zero, suc, ◌+◌, ◌-◌, ◌*◌, ◌^◌, ◌<◌, ◌≡◌, refl, [], ◌∷◌, Bool, true, false, ◌&&◌, Bytes, arith,
  if◌then◌else◌, ltb, length, All, ◌==◌, nat_eq, ◌≤◌, ◌/=◌, subst, sym, ap, Bool-cases, inl,
  nat_beq_iff, inr, leb, ◌∙◌,
}
use Prim.Native.Nat.{bit_and}
use native.Mathlib.Nat.{pow-suc, mul-le-mul_right, mul-le-mul}
use ai_po_w_unified_dag.AiPow.Difficulty.{high_mask, leading_zeros, meets_difficulty, strip_0x}

-- The bytes of a hash as a number, the first byte first.
abbrev pub be_value : Bytes → ℕ
be_value [] = 0
be_value (v ∷ vs) = v * 256 ^ length vs + be_value vs

pow_256-suc : (n : ℕ) → 256 ^ suc n ≡ 256 * 256 ^ n
pow_256-suc n = omega (arith, pow-suc 256 n)

pub be_value-lt : (bs : Bytes) → All (λ b. b < 256) bs → be_value bs < 256 ^ length bs
be_value-lt [] h = omega arith
be_value-lt (v ∷ vs) (hv, h) = grind (arith, pow_256-suc (length vs), be_value-lt vs h)

-- Every test of the mask, by evaluation.
holds_below : (ℕ → Bool) → ℕ → Bool
holds_below test zero = true
holds_below test (suc k) = holds_below test k && test k

holds_below_sound : (test : ℕ → Bool) (k v : ℕ) → v < k → holds_below test k ≡ true → test v ≡ true
unfolding holds_below
holds_below_sound test zero v small h = absurd (omega arith)
holds_below_sound test (suc k) v small h = ground (arith, holds_below_sound test k v)

same_bool : Bool → Bool → Bool
same_bool true b = b
same_bool false b = if b then false else true

same_bool_sound : (a b : Bool) → same_bool a b ≡ true → a ≡ b
unfolding same_bool
same_bool_sound a b h = ground arith

mask_table :
    holds_below
      (λ r. holds_below (λ v. same_bool (bit_and v (high_mask r) == 0) (ltb v (2 ^ (8 - r)))) 256)
      8
    ≡ true
unfolding holds_below same_bool
mask_table = refl

-- The bits under the mask are clear exactly when the byte is small.
mask_test : (r v : ℕ) → r < 8 → v < 256 → (bit_and v (high_mask r) == 0) ≡ ltb v (2 ^ (8 - r))
mask_test r v hr hv =
    same_bool_sound _ _ (holds_below_sound _ 256 v hv (holds_below_sound _ 8 r hr mask_table))

-- A byte is below `k` exactly when the whole number is, at its place.
byte_lt : (k m v w p : ℕ) → k * m ≡ 256 → 0 < m → w < p → v < k → (v * p + w) * m < 256 * p
byte_lt k m v w p e hm hw h =
    let top : v * p + w + 1 ≤ k * p = omega (arith, mul-le-mul_right p h) in
    omega (arith, mul-le-mul_right m top, ap (λ (t : ℕ). t * p) e)

byte_ge : (k m v w p : ℕ) → k * m ≡ 256 → k ≤ v → 256 * p ≤ (v * p + w) * m
byte_ge k m v w p e h =
    let low : k * p ≤ v * p + w = omega (arith, mul-le-mul_right p h) in
    omega (arith, mul-le-mul_right m low, ap (λ (t : ℕ). t * p) e)

byte_test :
    (k m v w p : ℕ) → k * m ≡ 256 → 0 < m → w < p → ltb v k ≡ ltb ((v * p + w) * m) (256 * p)
byte_test k m v w p e hm hw = elim (dec_lt v k) [
  | yes below ↦ ground (arith, byte_lt k m v w p e hm hw below)
  | no above ↦ ground (arith, byte_ge k m v w p e (omega arith))
]

-- The last byte that is looked at: between one and seven of its bits.
last_byte :
    (r v w p : ℕ)
    → 0 < r
    → r < 8
    → w < p
    → ltb v (2 ^ (8 - r)) ≡ ltb ((v * p + w) * 2 ^ r) (256 * p)
last_byte zero v w p h k hw = absurd (omega arith)
last_byte (suc zero) v w p h k hw = byte_test 128 2 v w p refl (omega arith) hw
last_byte (suc (suc zero)) v w p h k hw = byte_test 64 4 v w p refl (omega arith) hw
last_byte (suc (suc (suc zero))) v w p h k hw = byte_test 32 8 v w p refl (omega arith) hw
last_byte (suc (suc (suc (suc zero)))) v w p h k hw = byte_test 16 16 v w p refl (omega arith) hw
last_byte (suc (suc (suc (suc (suc zero))))) v w p h k hw =
    byte_test 8 32 v w p refl (omega arith) hw
last_byte (suc (suc (suc (suc (suc (suc zero)))))) v w p h k hw =
    byte_test 4 64 v w p refl (omega arith) hw
last_byte (suc (suc (suc (suc (suc (suc (suc zero))))))) v w p h k hw =
    byte_test 2 128 v w p refl (omega arith) hw
last_byte (suc (suc (suc (suc (suc (suc (suc (suc r)))))))) v w p h k hw = absurd (omega arith)

-- A whole byte that is looked at.
pow_2-sub_8 : (r : ℕ) → 8 ≤ r → 2 ^ r ≡ 256 * 2 ^ (r - 8)
pow_2-sub_8 r h =
    let e : r ≡ r - 8 + 8 = omega arith in
    subst (λ t. 2 ^ t ≡ 256 * 2 ^ (r - 8)) (sym e)
      (simp towards_suc (omega (arith, pow-suc 2 (r - 8))))

pow_2-pos : (r : ℕ) → 0 < 2 ^ r
pow_2-pos zero = omega arith
pow_2-pos (suc r) = omega (arith, pow-suc 2 r, pow_2-pos r)

whole_byte :
    (r v w p : ℕ)
    → 8 ≤ r
    → w < p
    → (if v /= 0 then false else ltb (w * 2 ^ (r - 8)) p) ≡ ltb ((v * p + w) * 2 ^ r) (256 * p)
whole_byte r zero w p h hw = rw (pow_2-sub_8 r h) (ground arith)
whole_byte r (suc v) w p h hw =
    let wide : 256 ≤ 2 ^ r = omega (arith, pow_2-sub_8 r h, pow_2-pos (r - 8)) in
    let one : p ≤ suc v * p + w =
      omega (arith, mul-le-mul_right {m = 1} {n = suc v} p (omega arith)) in
    let big : 256 * p ≤ (suc v * p + w) * 2 ^ r = omega (arith, mul-le-mul one wide) in
    ground (arith, big)

-- The loop tests whether the first `remaining` bits of the bytes are zero: whether the number that
-- they make, shifted left that far, still fits.
pub leading_zeros_lem :
    (r : ℕ) (bs : Bytes)
    → All (λ b. b < 256) bs
    → r ≤ 8 * length bs
    → leading_zeros r bs ≡ ltb (be_value bs * 2 ^ r) (256 ^ length bs)
unfolding leading_zeros
leading_zeros_lem zero [] h k = refl
leading_zeros_lem (suc r) [] h k = absurd (omega arith)
leading_zeros_lem r (v ∷ vs) (hv, h) k = elim (Bool-cases (r == 0)) [
  | inl none_left ↦
      let e : r ≡ 0 = (nat_beq_iff r 0).0 none_left in
      rw e (ground (arith, be_value-lt (v ∷ vs) (hv, h)))
  | inr more ↦ elim (Bool-cases (leb 8 r)) [
    | inl byte ↦
        rw (more, byte, leading_zeros_lem (r - 8) vs h (ground arith), pow_256-suc (length vs))
          (whole_byte r v (be_value vs) (256 ^ length vs) (ground arith) (be_value-lt vs h))
    | inr few ↦
        rw (more, few, mask_test r v (ground arith) hv, pow_256-suc (length vs))
          (last_byte r v (be_value vs) (256 ^ length vs) (ground arith) (ground arith)
            (be_value-lt vs h))
  ]
]

-- A hash of 32 bytes, written in hexadecimal after "0x", meets a difficulty below 256 exactly when
-- the number that it writes, times two to the difficulty, is below 2 ^ 256.
pub meets_difficulty-hash :
    (b : Bytes) (difficulty : ℕ)
    → All (λ v. v < 256) b
    → length b ≡ 32
    → difficulty < 256
    → meets_difficulty (48 ∷ 120 ∷ encode_to_string b) difficulty
      ≡ ltb (be_value b * 2 ^ difficulty) (2 ^ 256)
unfolding meets_difficulty strip_0x
meets_difficulty-hash b difficulty h n d =
    rw (decode_string-encode_to_string b h, meets_difficulty, n)
      (leading_zeros_lem difficulty b h (omega arith)
        ∙ ap (λ k. ltb (be_value b * 2 ^ difficulty) (256 ^ k)) n)
