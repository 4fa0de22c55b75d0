-- ===== src/Go/Binary.antt =====
-- encoding/binary: little-endian words.
use native.Mathlib.Nat.{pow-suc}
use ai_po_w_unified_dag.Prelude.{
  ℕ, zero, suc, ◌+◌, ◌*◌, ◌/◌, ◌%◌, ◌^◌, ◌<◌, ◌≡◌, refl, [], ◌∷◌, ◌++◌, Bytes, arith, length,
}

-- PutUint16, PutUint32 and PutUint64 write 2, 4 and 8 bytes.
unfoldable pub put_uint : ℕ → ℕ → Bytes
put_uint zero v = []
put_uint (suc n) v = (v % 256) ∷ put_uint n (v / 256)

-- Uint16, Uint32 and Uint64 of the first bytes.
unfoldable pub get_uint : ℕ → Bytes → ℕ
get_uint zero bs = 0
get_uint (suc n) [] = 0
get_uint (suc n) (b ∷ bs) = b + 256 * get_uint n bs

pub length-put_uint : (n v : ℕ) → length (put_uint n v) ≡ n
unfolding put_uint
length-put_uint zero v = refl
length-put_uint (suc n) v = omega (arith, length-put_uint n (v / 256))

-- A word that fits is read back as it was written, whatever follows.
pub get_uint-put_uint :
    (n v : ℕ) (rest : Bytes) → v < 256 ^ n → get_uint n (put_uint n v ++ rest) ≡ v
unfolding get_uint put_uint
get_uint-put_uint zero v rest h = omega arith
get_uint-put_uint (suc n) v rest h =
    omega (arith, get_uint-put_uint n (v / 256) rest (omega (arith, pow-suc 256 n)))
