-- ===== src/Prelude/Results.antt =====
-- Go's `(value, error)` as a result: `ok` where the error is nil.
use mathlib.Core.Path.{◌≡◌, refl, ap}
use mathlib.Core.Logic.{◌⊎◌, inl, inr}
use mathlib.Core.Bool.{Bool, true, false}

pub data Result {ℓ} (E : Type 0) (A : Type ℓ) : Type ℓ where
  err : E → Result E A
  ok : A → Result E A

module _ {E : Type 0} where
  -- `if bad { return e }`
  abbrev pub fail_if : Bool → E → Result E (Unit {0})
  fail_if true e = err e
  fail_if false e = ok tt

  abbrev pub map_err {ℓ} : {A : Type ℓ} {F : Type 0} → (E → F) → Result E A → Result F A
  map_err f (err e) = err (f e)
  map_err f (ok a) = ok a

  infixl 5 ◌>>=◌ ◌>>◌
  abbrev pub ◌>>=◌ {ℓ κ} : {A : Type ℓ} {B : Type κ} → Result E A → (A → Result E B) → Result E B
  err e >>= next = err e
  ok a >>= next = next a

  abbrev pub ◌>>◌ {ℓ} : {B : Type ℓ} → Result E (Unit {0}) → Result E B → Result E B
  err e >> next = err e
  ok u >> next = next

  pub Result-cases {ℓ} :
      {A : Type ℓ} (r : Result E A) → ((a : A) × (r ≡ ok a)) ⊎ ((e : E) × (r ≡ err e))
  Result-cases (ok a) = inl (a, refl)
  Result-cases (err e) = inr (e, refl)

  -- A chain that ends well went well at each step.
  pub >>=-ok {ℓ κ} :
      {A : Type ℓ} {B : Type κ} (first : Result E A) (next : A → Result E B) {b : B}
      → (first >>= next) ≡ ok b
      → (a : A) × (first ≡ ok a) × (next a ≡ ok b)
  >>=-ok (err e) next h = cc
  >>=-ok (ok a) next h = (a, refl, h)

  pub >>-ok {ℓ} :
      {B : Type ℓ} (first : Result E (Unit {0})) (next : Result E B) {b : B}
      → (first >> next) ≡ ok b
      → (first ≡ ok tt) × (next ≡ ok b)
  >>-ok (err e) next h = cc
  >>-ok (ok u) next h = (refl, h)

  -- A guard that passed found nothing bad.
  pub fail_if-ok : (b : Bool) (e : E) → fail_if b e ≡ ok tt → b ≡ false
  fail_if-ok true e h = cc h
  fail_if-ok false e h = refl

  pub map_err-ok {ℓ} :
      {A : Type ℓ} {F : Type 0} (f : E → F) (r : Result E A) {a : A} → map_err f r ≡ ok a → r ≡ ok a
  map_err-ok f (err e) h = cc h
  map_err-ok f (ok x) {a} h = let same : x ≡ a = cc h in ap ok same
