-- ===== src/Prelude/Lists.antt =====
-- Lists measured by native numbers, and Go maps as association lists.
use Prim.Native.Nat.{ℕ, zero, suc, ◌+◌}
use mathlib.Core.Path.{◌≡◌, refl, ap, subst}
use mathlib.Core.Logic.{◌⊎◌, inl, inr}
use mathlib.Core.Bool.{Bool, true, false, not, ◌&&◌, ◌||◌}
use mathlib.Core.Option.{Option, none, some}
use mathlib.Core.List.{List, [], ◌∷◌, ◌++◌}
use native.Mathlib.Omega.{arith}
use ai_po_w_unified_dag.Prelude.Tests.{Eq, ◌==◌, if◌then◌else◌}

module _ {ℓ} {A : Type ℓ} where
  abbrev pub length : List A → ℕ
  length [] = 0
  length (x ∷ xs) = suc (length xs)

  pub length-append : (xs ys : List A) → length (xs ++ ys) ≡ length xs + length ys
  length-append [] ys = omega arith
  length-append (x ∷ xs) ys = omega (arith, length-append xs ys)

  abbrev pub get_elem? : List A → ℕ → Option A
  get_elem? [] i = none
  get_elem? (x ∷ xs) zero = some x
  get_elem? (x ∷ xs) (suc i) = get_elem? xs i

  abbrev pub get_or : List A → ℕ → A → A
  get_or [] i d = d
  get_or (x ∷ xs) zero d = x
  get_or (x ∷ xs) (suc i) d = get_or xs i d

  abbrev pub take : ℕ → List A → List A
  take zero xs = []
  take (suc n) [] = []
  take (suc n) (x ∷ xs) = x ∷ take n xs

  abbrev pub drop : ℕ → List A → List A
  drop zero xs = xs
  drop (suc n) [] = []
  drop (suc n) (x ∷ xs) = drop n xs

  abbrev pub replicate : ℕ → A → List A
  replicate zero a = []
  replicate (suc n) a = a ∷ replicate n a

  -- How many elements pass a test.
  abbrev pub count_if : (A → Bool) → List A → ℕ
  count_if p [] = 0
  count_if p (x ∷ xs) = (if p x then 1 else 0) + count_if p xs

  -- Every element satisfies a predicate.
  abbrev pub All {κ} : (A → Type κ) → List A → Type κ
  All P [] = Unit
  All P (x ∷ xs) = P x × All P xs

module _ {A : Type 0} where
  -- Membership, with the place kept.
  abbrev pub Elem : A → List A → Type 0
  Elem a [] = ⊥
  Elem a (x ∷ xs) = (x ≡ a) ⊎ Elem a xs

  pub All-Elem {κ} : (P : A → Type κ) {a : A} (xs : List A) → All P xs → Elem a xs → P a
  All-Elem P [] h m = elim m [ ]
  All-Elem P (x ∷ xs) h (inl e) = subst P e h.0
  All-Elem P (x ∷ xs) h (inr m) = All-Elem P xs h.1 m

  pub All-append {κ} : (P : A → Type κ) (xs ys : List A) → All P xs → All P ys → All P (xs ++ ys)
  All-append P [] ys h k = k
  All-append P (x ∷ xs) ys h k = (h.0, All-append P xs ys h.1 k)

  pub Elem-append_left : (a : A) (xs ys : List A) → Elem a xs → Elem a (xs ++ ys)
  Elem-append_left a [] ys m = elim m [ ]
  Elem-append_left a (x ∷ xs) ys (inl e) = inl e
  Elem-append_left a (x ∷ xs) ys (inr m) = inr (Elem-append_left a xs ys m)

  pub Elem-append_right : (a : A) (xs ys : List A) → Elem a ys → Elem a (xs ++ ys)
  Elem-append_right a [] ys m = m
  Elem-append_right a (x ∷ xs) ys m = inr (Elem-append_right a xs ys m)

  pub All-intro {κ} : (P : A → Type κ) (xs : List A) → ((a : A) → Elem a xs → P a) → All P xs
  All-intro P [] h = tt
  All-intro P (x ∷ xs) h = (h x (inl refl), All-intro P xs (λ a m. h a (inr m)))

module _ {ℓ} {A : Type ℓ} ⦃e : Eq A⦄ where
  unfoldable pub contains : List A → A → Bool
  contains [] a = false
  contains (x ∷ xs) a = x == a || contains xs a

  -- No element stands twice.
  unfoldable pub distinct : List A → Bool
  distinct [] = true
  distinct (x ∷ xs) = not (contains xs x) && distinct xs

  pub contains-append :
      (xs ys : List A) (a : A) → contains (xs ++ ys) a ≡ (contains xs a || contains ys a)
  unfolding contains
  contains-append [] ys a = refl
  contains-append (x ∷ xs) ys a = ground (arith, contains-append xs ys a)

  pub distinct-snoc :
      (xs : List A) (a : A)
      → distinct xs ≡ true
      → contains xs a ≡ false
      → distinct (xs ++ a ∷ []) ≡ true
  unfolding distinct contains
  distinct-snoc [] a h k = refl
  distinct-snoc (x ∷ xs) a h k =
      ground
        (arith, contains-append xs (a ∷ []) x, distinct-snoc xs a, e.same_iff x a, e.same_iff a x)

  -- Of a list without repetitions, what stands before an element does not hold it.
  pub distinct-append_cons :
      (xs : List A) (a : A) (ys : List A) → distinct (xs ++ a ∷ ys) ≡ true → contains xs a ≡ false
  unfolding distinct contains
  distinct-append_cons [] a ys h = refl
  distinct-append_cons (x ∷ xs) a ys h = ground (
    arith,
    contains-append xs (a ∷ ys) x,
    distinct-append_cons xs a ys,
    e.same_iff x a,
    e.same_iff a x,
  )

  -- Keys that are none of some and a further key are none of those, and not that key.
  pub fresh_tail :
      (key : A) (seen ids : List A)
      → All (λ i. contains (key ∷ seen) i ≡ false) ids
      → All (λ i. contains seen i ≡ false) ids × (contains ids key ≡ false)
  unfolding contains
  fresh_tail key seen [] h = (tt, refl)
  fresh_tail key seen (i ∷ ids) (first, h) =
      let (rest, apart) = fresh_tail key seen ids h in
      ((ground arith, rest), ground (arith, e.same_iff key i, e.same_iff i key))

module _ {ℓ κ} {K : Type ℓ} {V : Type κ} where
  unfoldable pub keys : List (K × V) → List K
  keys [] = []
  keys ((k, v) ∷ m) = k ∷ keys m

  pub keys-append : (m n : List (K × V)) → keys (m ++ n) ≡ keys m ++ keys n
  unfolding keys
  keys-append [] n = refl
  keys-append ((k, v) ∷ m) n = ap (◌∷◌ k) (keys-append m n)

-- A Go map: one entry for each key. `m[k]` is `lookup k m`, and `m[k] = v` is `insert k v m`.
module _ {ℓ κ} {K : Type ℓ} {V : Type κ} ⦃e : Eq K⦄ where
  unfoldable pub lookup : K → List (K × V) → Option V
  lookup k [] = none
  lookup k ((j, v) ∷ m) = if j == k then some v else lookup k m

  unfoldable pub delete : K → List (K × V) → List (K × V)
  delete k [] = []
  delete k ((j, w) ∷ m) = if j == k then delete k m else (j, w) ∷ delete k m

  unfoldable pub insert : K → V → List (K × V) → List (K × V)
  insert key value [] = (key, value) ∷ []
  insert key value ((k, old) ∷ rest) =
      if k == key then (key, value) ∷ rest else (k, old) ∷ insert key value rest

  pub lookup-insert :
      (key sought : K) (value : V) (entries : List (K × V))
      → lookup sought (insert key value entries)
        ≡ (if key == sought then some value else lookup sought entries)
  unfolding insert lookup
  lookup-insert key sought value [] = refl
  lookup-insert key sought value ((k, old) ∷ rest) = ground (
    arith,
    e.same_iff key sought,
    e.same_iff k key,
    e.same_iff k sought,
    lookup-insert key sought value rest,
  )

  pub lookup-delete :
      (key sought : K) (entries : List (K × V))
      → lookup sought (delete key entries) ≡ (if key == sought then none else lookup sought entries)
  unfolding delete lookup
  lookup-delete key sought [] = ground arith
  lookup-delete key sought ((k, old) ∷ rest) = ground (
    arith,
    e.same_iff key sought,
    e.same_iff k key,
    e.same_iff k sought,
    lookup-delete key sought rest,
  )

  pub lookup-none-contains :
      (k : K) (m : List (K × V)) → lookup k m ≡ none → contains (keys m) k ≡ false
  unfolding lookup keys contains
  lookup-none-contains k [] h = refl
  lookup-none-contains k ((j, v) ∷ m) h = ground (arith, lookup-none-contains k m)

  -- A new key goes to the end.
  pub insert_new :
      (k : K) (v : V) (m : List (K × V)) → lookup k m ≡ none → insert k v m ≡ m ++ (k, v) ∷ []
  unfolding lookup insert
  insert_new k v [] h = refl
  insert_new k v ((j, w) ∷ m) h = ground (arith, insert_new k v m)

  pub lookup-some-contains :
      (k : K) (m : List (K × V)) {v : V} → lookup k m ≡ some v → contains (keys m) k ≡ true
  unfolding lookup keys contains
  lookup-some-contains k [] h = cc
  lookup-some-contains k ((j, v) ∷ m) {v = w} h = ground (arith, lookup-some-contains k m {v = w})

  pub contains-false-lookup :
      (k : K) (m : List (K × V)) → contains (keys m) k ≡ false → lookup k m ≡ none
  unfolding lookup keys contains
  contains-false-lookup k [] h = refl
  contains-false-lookup k ((j, v) ∷ m) h = ground (arith, contains-false-lookup k m)
