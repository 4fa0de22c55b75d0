-- ===== src/Prelude/Tests.antt =====
-- Boolean tests on the native numbers and on byte strings, and the conditional.
use Prim.Native.Nat.{ℕ, ◌%◌, ◌^◌, ◌≤◌, ◌<◌, compare, Ordering}
use Prim.Native.Char.{code}
use Prim.Native.String.{String}
use mathlib.Core.Path.{◌≡◌, refl}
use mathlib.Core.Logic.{◌↔◌, ◌⊎◌, inl, inr}
use mathlib.Core.Bool.{Bool, true, false, ◌&&◌}
use mathlib.Core.Option.{Option, none, some}
use mathlib.Core.List.{List, [], ◌∷◌}
use native.Mathlib.Omega.{arith}

-- A test computes to `compare`, which `ground` and `grind` read.
abbrev pub ltb : ℕ → ℕ → Bool
ltb a b = elim (compare a b) [ Ordering.lt ↦ true | _ ↦ false ]

abbrev pub leb : ℕ → ℕ → Bool
leb a b = elim (compare a b) [ Ordering.gt ↦ false | _ ↦ true ]

abbrev pub nat_beq : ℕ → ℕ → Bool
nat_beq a b = elim (compare a b) [ Ordering.eq ↦ true | _ ↦ false ]

infix 1 if◌then◌else◌
abbrev pub if◌then◌else◌ {ℓ} : {A : Type ℓ} → Bool → A → A → A
if true then x else y = x
if false then x else y = y

pub ltb→lt : (a b : ℕ) → ltb a b ≡ true → a < b
ltb→lt a b h = ground arith

pub ltb_false→le : (a b : ℕ) → ltb a b ≡ false → b ≤ a
ltb_false→le a b h = ground arith

pub nat_beq_iff : (a b : ℕ) → (nat_beq a b ≡ true) ↔ (a ≡ b)
nat_beq_iff a b = ground arith

pub Bool-cases : (b : Bool) → (b ≡ true) ⊎ (b ≡ false)
Bool-cases true = inl refl
Bool-cases false = inr refl

pub Option-cases {ℓ} : {A : Type ℓ} (o : Option A) → (o ≡ none) ⊎ ((a : A) × (o ≡ some a))
Option-cases none = inl refl
Option-cases (some a) = inr (a, refl)

-- Go's uint64 arithmetic wraps.
abbrev pub u64 : ℕ → ℕ
u64 n = n % 2 ^ 64

-- A Go `string` or `[]byte`: its bytes.
abbrev pub Bytes : Type 0
Bytes = List ℕ

-- The bytes of an ASCII literal of the source.
unfoldable pub codes : String → Bytes
codes String.[] = []
codes (String.◌∷◌ c s) = code c ∷ codes s

unfoldable pub eq_bytes : Bytes → Bytes → Bool
eq_bytes [] [] = true
eq_bytes [] (y ∷ ys) = false
eq_bytes (x ∷ xs) [] = false
eq_bytes (x ∷ xs) (y ∷ ys) = nat_beq x y && eq_bytes xs ys

-- Go compares strings byte by byte.
unfoldable pub lt_bytes : Bytes → Bytes → Bool
lt_bytes xs [] = false
lt_bytes [] (y ∷ ys) = true
lt_bytes (x ∷ xs) (y ∷ ys) =
    let rest = lt_bytes xs ys in if ltb x y then true else if ltb y x then false else rest

pub eq_bytes_iff : (a b : Bytes) → (eq_bytes a b ≡ true) ↔ (a ≡ b)
unfolding eq_bytes
eq_bytes_iff [] [] = (λ h. refl, λ h. refl)
eq_bytes_iff [] (y ∷ ys) = (λ h. cc, λ h. cc)
eq_bytes_iff (x ∷ xs) [] = (λ h. cc, λ h. cc)
eq_bytes_iff (x ∷ xs) (y ∷ ys) = ground (arith, eq_bytes_iff xs ys)

pub lt_bytes_irrefl : (a : Bytes) → lt_bytes a a ≡ false
unfolding lt_bytes
lt_bytes_irrefl [] = refl
lt_bytes_irrefl (x ∷ xs) = ground (arith, lt_bytes_irrefl xs)

pub lt_bytes_trans :
    (a b c : Bytes) → lt_bytes a b ≡ true → lt_bytes b c ≡ true → lt_bytes a c ≡ true
unfolding lt_bytes
lt_bytes_trans a b [] p q = q
lt_bytes_trans a [] (z ∷ zs) p q = cc
lt_bytes_trans [] (y ∷ ys) (z ∷ zs) p q = refl
lt_bytes_trans (x ∷ xs) (y ∷ ys) (z ∷ zs) p q = ground (arith, lt_bytes_trans xs ys zs)

pub lt_bytes_total : (a b : Bytes) → lt_bytes a b ≡ false → lt_bytes b a ≡ false → a ≡ b
unfolding lt_bytes
lt_bytes_total [] [] p q = refl
lt_bytes_total [] (y ∷ ys) p q = cc
lt_bytes_total (x ∷ xs) [] p q = cc
lt_bytes_total (x ∷ xs) (y ∷ ys) p q = ground (arith, lt_bytes_total xs ys)

pub lt_bytes-asym : (a b : Bytes) → lt_bytes a b ≡ true → lt_bytes b a ≡ false
unfolding lt_bytes
lt_bytes-asym a [] p = cc
lt_bytes-asym [] (y ∷ ys) p = refl
lt_bytes-asym (x ∷ xs) (y ∷ ys) p = ground (arith, lt_bytes-asym xs ys)

pub lt_bytes-neg_trans :
    (a b c : Bytes) → lt_bytes a b ≡ false → lt_bytes b c ≡ false → lt_bytes a c ≡ false
unfolding lt_bytes
lt_bytes-neg_trans a b [] p q = refl
lt_bytes-neg_trans a [] (z ∷ zs) p q = cc
lt_bytes-neg_trans [] (y ∷ ys) (z ∷ zs) p q = cc
lt_bytes-neg_trans (x ∷ xs) (y ∷ ys) (z ∷ zs) p q = ground (arith, lt_bytes-neg_trans xs ys zs)

-- Equality tests on keys, fields and hashes: a test with its meaning.
pub record Eq {ℓ} (K : Type ℓ) : Type ℓ where
  pub same : K → K → Bool
  pub same_iff : (x y : K) → (same x y ≡ true) ↔ (x ≡ y)

instance abbrev pub bytes_eq : Eq Bytes
bytes_eq = record { same = eq_bytes; same_iff = eq_bytes_iff }

infix 50 ◌==◌ ◌/=◌
abbrev pub ◌==◌ {ℓ} : {K : Type ℓ} ⦃test : Eq K⦄ → K → K → Bool
◌==◌ ⦃test⦄ x y = test.same x y

abbrev pub ◌/=◌ {ℓ} : {K : Type ℓ} ⦃test : Eq K⦄ → K → K → Bool
◌/=◌ ⦃test⦄ x y = if test.same x y then false else true

instance abbrev pub nat_eq : Eq ℕ
nat_eq = record { same = nat_beq; same_iff = nat_beq_iff }
