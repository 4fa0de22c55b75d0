-- ===== src/Prelude/Ints.antt =====
-- Go's int, and what a conversion to uint64 does to it.
use ai_po_w_unified_dag.Prelude.Tests.{ltb, nat_beq, nat_beq_iff, u64, Eq}
use Prim.Native.Nat.{ℕ, ◌+◌, ◌-◌, ◌^◌}
use mathlib.Core.Path.{◌≡◌}
use mathlib.Core.Logic.{◌↔◌}
use mathlib.Core.Bool.{Bool, true, false}
use native.Mathlib.Omega.{arith}

-- `negsuc n` is -(n + 1).
pub data ℤ : Type 0 where
  pos : ℕ → ℤ
  negsuc : ℕ → ℤ

abbrev pub int_beq : ℤ → ℤ → Bool
int_beq (pos a) (pos b) = nat_beq a b
int_beq (negsuc a) (negsuc b) = nat_beq a b
int_beq _ _ = false

pub int_beq_iff : (a b : ℤ) → (int_beq a b ≡ true) ↔ (a ≡ b)
int_beq_iff (pos a) (pos b) = ground (arith, nat_beq_iff a b)
int_beq_iff (negsuc a) (negsuc b) = ground (arith, nat_beq_iff a b)
int_beq_iff (pos a) (negsuc b) = ground arith
int_beq_iff (negsuc a) (pos b) = ground arith

instance abbrev pub int_eq : Eq ℤ
int_eq = record { same = int_beq; same_iff = int_beq_iff }

-- `a < b`
abbrev pub ltb_int : ℤ → ℤ → Bool
ltb_int (pos a) (pos b) = ltb a b
ltb_int (pos a) (negsuc b) = false
ltb_int (negsuc a) (pos b) = true
ltb_int (negsuc a) (negsuc b) = ltb b a

-- `n <= 0`
abbrev pub is_nonpositive : ℤ → Bool
is_nonpositive (pos n) = nat_beq n 0
is_nonpositive (negsuc n) = true

abbrev pub is_negative : ℤ → Bool
is_negative (pos n) = false
is_negative (negsuc n) = true

-- `uint64(n)` of an int of 64 bits
abbrev pub to_uint64 : ℤ → ℕ
to_uint64 (pos n) = u64 n
to_uint64 (negsuc n) = u64 (2 ^ 64 - (n + 1))

-- `a - b` on uint64
abbrev pub sub64 : ℕ → ℕ → ℕ
sub64 a b = u64 (a + 2 ^ 64 - b)
