-- ===== src/Go/Text.antt =====
-- strings.TrimSpace, TrimPrefix and HasPrefix, on the bytes of a text.
use ai_po_w_unified_dag.Prelude.{
  refl, All-append, ℕ, zero, suc, [], ◌∷◌, Bool, ◌&&◌, ◌||◌, Bytes, leb, if◌then◌else◌, length,
  drop, ◌==◌, nat_eq, All, ◌≡◌, arith, true,
}
use mathlib.Core.List.{reverse, reverse-cons, reverse-reverse}
use ai_po_w_unified_dag.Go.Hex.{IsPlain}

unfoldable pub is_ascii_space : ℕ → Bool
is_ascii_space c = (leb 9 c && leb c 13) || c == 32

unfoldable pub is_wide_space : ℕ → ℕ → ℕ → Bool
is_wide_space a b c =
    (a == 0xe1 && b == 0x9a && c == 0x80)
    || (a == 0xe2
        && b == 0x80
        && ((leb 0x80 c && leb c 0x8a) || c == 0xa8 || c == 0xa9 || c == 0xaf))
    || (a == 0xe2 && b == 0x81 && c == 0x9f)
    || (a == 0xe3 && b == 0x80 && c == 0x80)

-- How many bytes the white-space character takes that a text begins with: 0 if there is none.
-- Beside those of ASCII, Unicode has U+0085, U+00A0, U+1680, U+2000 to U+200A, U+2028, U+2029,
-- U+202F, U+205F and U+3000.
unfoldable pub leading_space : Bytes → ℕ
leading_space [] = 0
leading_space (a ∷ []) = if is_ascii_space a then 1 else 0
leading_space (a ∷ b ∷ []) =
    if is_ascii_space a then 1 else if a == 0xc2 && (b == 0x85 || b == 0xa0) then 2 else 0
leading_space (a ∷ b ∷ c ∷ rest) =
    if is_ascii_space a
    then 1
    else if a == 0xc2 && (b == 0x85 || b == 0xa0)
    then 2
    else if is_wide_space a b c
    then 3
    else 0

-- The same for the end of a text, whose bytes stand in reverse.
unfoldable pub trailing_space : Bytes → ℕ
trailing_space [] = 0
trailing_space (a ∷ []) = if is_ascii_space a then 1 else 0
trailing_space (b ∷ a ∷ []) =
    if is_ascii_space b then 1 else if a == 0xc2 && (b == 0x85 || b == 0xa0) then 2 else 0
trailing_space (c ∷ b ∷ a ∷ rest) =
    if is_ascii_space c
    then 1
    else if b == 0xc2 && (c == 0x85 || c == 0xa0)
    then 2
    else if is_wide_space a b c
    then 3
    else 0

-- Drops characters while the test finds one, at most as many as there are bytes.
unfoldable pub trim_while : (Bytes → ℕ) → ℕ → Bytes → Bytes
trim_while space zero s = s
trim_while space (suc fuel) s =
    let rest = trim_while space fuel (drop (space s) s) in if space s == 0 then s else rest

unfoldable pub trim_space : Bytes → Bytes
trim_space s =
    let t = trim_while leading_space (length s) s in
    reverse (trim_while trailing_space (length t) (reverse t))

unfoldable pub trim_prefix_2 : ℕ → ℕ → Bytes → Bytes
trim_prefix_2 p q [] = []
trim_prefix_2 p q (a ∷ []) = a ∷ []
trim_prefix_2 p q (a ∷ b ∷ rest) = if a == p && b == q then rest else a ∷ b ∷ rest

All-IsPlain-reverse : (s : Bytes) → All IsPlain s → All IsPlain (reverse s)
All-IsPlain-reverse [] h = tt
All-IsPlain-reverse (a ∷ s) (ha, h) =
    rw (reverse-cons a s)
      (All-append IsPlain (reverse s) (a ∷ []) (All-IsPlain-reverse s h) (ha, tt))

leading_space-IsPlain : (s : Bytes) → All IsPlain s → leading_space s ≡ 0
unfolding leading_space is_ascii_space is_wide_space
leading_space-IsPlain [] h = refl
leading_space-IsPlain (a ∷ []) (ha, h) = ground arith
leading_space-IsPlain (a ∷ b ∷ []) (ha, (hb, h)) = ground arith
leading_space-IsPlain (a ∷ b ∷ d ∷ rest) (ha, (hb, (hd, h))) = ground arith

trailing_space-IsPlain : (s : Bytes) → All IsPlain s → trailing_space s ≡ 0
unfolding trailing_space is_ascii_space is_wide_space
trailing_space-IsPlain [] h = refl
trailing_space-IsPlain (a ∷ []) (ha, h) = ground arith
trailing_space-IsPlain (b ∷ a ∷ []) (hb, (ha, h)) = ground arith
trailing_space-IsPlain (d ∷ b ∷ a ∷ rest) (hd, (hb, (ha, h))) = ground arith

trim_while-none :
    (space : Bytes → ℕ) (fuel : ℕ) (s : Bytes) → space s ≡ 0 → trim_while space fuel s ≡ s
unfolding trim_while
trim_while-none space zero s h = refl
trim_while-none space (suc fuel) s h = let none_left : (space s == 0) ≡ true = rw h in rw none_left

-- A text of plain bytes has no space to trim.
pub trim_space-IsPlain : (s : Bytes) → All IsPlain s → trim_space s ≡ s
unfolding trim_space
trim_space-IsPlain s h =
    let front = trim_while-none leading_space (length s) s (leading_space-IsPlain s h) in
    rw front (
      rw
        (trim_while-none trailing_space (length s) (reverse s)
          (trailing_space-IsPlain (reverse s) (All-IsPlain-reverse s h)))
        (reverse-reverse s))
