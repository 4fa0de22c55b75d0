-- ===== src/Prelude/Sort.antt =====
-- `sort.Slice` and `sort.Strings`: insertion by a strict order. Elements that the order does not
-- separate keep their places, where Go leaves their order open.
use Prim.Native.Nat.{suc}
use mathlib.Core.Path.{◌≡◌, refl, subst}
use mathlib.Core.Bool.{Bool, true, false}
use mathlib.Core.Logic.{◌⊎◌, inl, inr}
use mathlib.Core.List.{List, [], ◌∷◌, Perm}
use mathlib.Core.List.Perm
use native.Mathlib.Omega.{arith}
use ai_po_w_unified_dag.Prelude.Tests.{if◌then◌else◌, Bool-cases}
use ai_po_w_unified_dag.Prelude.Lists.{length, All, Elem}

module _ {ℓ} {A : Type ℓ} (less : A → A → Bool) where
  unfoldable pub insert_sorted : A → List A → List A
  insert_sorted a [] = a ∷ []
  insert_sorted a (x ∷ xs) = if less x a then x ∷ insert_sorted a xs else a ∷ x ∷ xs

  unfoldable pub sort_slice : List A → List A
  sort_slice [] = []
  sort_slice (x ∷ xs) = insert_sorted x (sort_slice xs)

  insert_sorted-perm : (a : A) (xs : List A) → Perm (insert_sorted a xs) (a ∷ xs)
  unfolding insert_sorted
  insert_sorted-perm a [] = Perm.refl (a ∷ [])
  insert_sorted-perm a (x ∷ xs) = elim (Bool-cases (less x a)) [
    | inl h ↦ rw h (Perm.trans (Perm.cons x (insert_sorted-perm a xs)) (Perm.swap a x xs))
    | inr h ↦ rw h (Perm.refl (a ∷ x ∷ xs))
  ]

  pub sort_slice-perm : (xs : List A) → Perm (sort_slice xs) xs
  unfolding sort_slice
  sort_slice-perm [] = Perm.refl []
  sort_slice-perm (x ∷ xs) =
      Perm.trans (insert_sorted-perm x (sort_slice xs)) (Perm.cons x (sort_slice-perm xs))

  module _ {κ} (R : List A → List A → Type κ) (R_refl : (xs : List A) → R xs xs)
      (R_cons : (a : A) (xs ys : List A) → R xs ys → R (a ∷ xs) (a ∷ ys))
      (R_swap : (a b : A) (xs : List A) → R (a ∷ b ∷ xs) (b ∷ a ∷ xs))
      (R_trans : (xs ys zs : List A) → R xs ys → R ys zs → R xs zs) where
    insert_sorted-related : (a : A) (xs : List A) → R (a ∷ xs) (insert_sorted a xs)
    unfolding insert_sorted
    insert_sorted-related a [] = R_refl (a ∷ [])
    insert_sorted-related a (x ∷ xs) = elim (Bool-cases (less x a)) [
      | inl h ↦ rw h (
          R_trans (a ∷ x ∷ xs) (x ∷ a ∷ xs) (x ∷ insert_sorted a xs) (R_swap a x xs)
            (R_cons x (a ∷ xs) (insert_sorted a xs) (insert_sorted-related a xs)))
      | inr h ↦ rw h (R_refl (a ∷ x ∷ xs))
    ]

    -- What holds of a list and its reorderings by exchanges of neighbours holds of sorting.
    pub sort_slice-related : (xs : List A) → R xs (sort_slice xs)
    unfolding sort_slice
    sort_slice-related [] = R_refl []
    sort_slice-related (x ∷ xs) =
        R_trans (x ∷ xs) (x ∷ sort_slice xs) (insert_sorted x (sort_slice xs))
          (R_cons x xs (sort_slice xs) (sort_slice-related xs))
          (insert_sorted-related x (sort_slice xs))

  length-insert_sorted : (a : A) (xs : List A) → length (insert_sorted a xs) ≡ suc (length xs)
  unfolding insert_sorted
  length-insert_sorted a [] = refl
  length-insert_sorted a (x ∷ xs) = ground (arith, length-insert_sorted a xs)

  pub length-sort_slice : (xs : List A) → length (sort_slice xs) ≡ length xs
  unfolding sort_slice
  length-sort_slice [] = refl
  length-sort_slice (x ∷ xs) =
      omega (arith, length-insert_sorted x (sort_slice xs), length-sort_slice xs)

  All-insert_sorted {κ} :
      (P : A → Type κ) (a : A) (xs : List A) → P a → All P xs → All P (insert_sorted a xs)
  unfolding insert_sorted
  All-insert_sorted P a [] p h = (p, tt)
  All-insert_sorted P a (x ∷ xs) p h = elim (Bool-cases (less x a)) [
    | inl q ↦ rw q (h.0, All-insert_sorted P a xs p h.1)
    | inr q ↦ rw q (p, h)
  ]

  -- What all elements satisfy, those of the sorted list do.
  pub All-sort_slice {κ} : (P : A → Type κ) (xs : List A) → All P xs → All P (sort_slice xs)
  unfolding sort_slice
  All-sort_slice P [] h = tt
  All-sort_slice P (x ∷ xs) h = All-insert_sorted P x (sort_slice xs) h.0 (All-sort_slice P xs h.1)

  -- No element is less than one before it.
  abbrev pub IsSorted : List A → Type 0
  IsSorted [] = Unit
  IsSorted (x ∷ xs) = All (λ y. less y x ≡ false) xs × IsSorted xs

  -- A strict weak order.
  pub record StrictOrder : Type ℓ where
    pub asym : (a b : A) → less a b ≡ true → less b a ≡ false
    pub neg_trans : (a b c : A) → less a b ≡ false → less b c ≡ false → less a c ≡ false

  module _ (o : StrictOrder) where
    All-not_less :
        (a x : A) (xs : List A)
        → less x a ≡ false
        → All (λ y. less y x ≡ false) xs
        → All (λ y. less y a ≡ false) xs
    All-not_less a x [] h k = tt
    All-not_less a x (y ∷ ys) h k = (o.neg_trans y x a k.0 h, All-not_less a x ys h k.1)

    insert_sorted-IsSorted : (a : A) (xs : List A) → IsSorted xs → IsSorted (insert_sorted a xs)
    unfolding insert_sorted
    insert_sorted-IsSorted a [] s = (tt, tt)
    insert_sorted-IsSorted a (x ∷ xs) s = elim (Bool-cases (less x a)) [
      | inl h ↦ rw h (
        All-insert_sorted (λ y. less y x ≡ false) a xs (o.asym x a h) s.0,
        insert_sorted-IsSorted a xs s.1,
      )
      | inr h ↦ rw h ((h, All-not_less a x xs h s.0), s)
    ]

    pub sort_slice-IsSorted : (xs : List A) → IsSorted (sort_slice xs)
    unfolding sort_slice
    sort_slice-IsSorted [] = tt
    sort_slice-IsSorted (x ∷ xs) = insert_sorted-IsSorted x (sort_slice xs) (sort_slice-IsSorted xs)

module _ {A : Type 0} (less : A → A → Bool) where
  Elem-insert_sorted :
      (a x : A) (xs : List A) → Elem x (insert_sorted less a xs) → (a ≡ x) ⊎ Elem x xs
  unfolding insert_sorted
  Elem-insert_sorted a x [] m = m
  Elem-insert_sorted a x (y ∷ ys) m = elim (Bool-cases (less y a)) [
    | inl h ↦ elim (rw h at m) [
      | inl e ↦ inr (inl e)
      | inr k ↦ elim (Elem-insert_sorted a x ys k) [ inl e ↦ inl e | inr l ↦ inr (inr l) ]
    ]
    | inr h ↦ rw h at m
  ]

  -- The sorted list has the elements of the list,
  pub Elem-of_sort_slice : (x : A) (xs : List A) → Elem x (sort_slice less xs) → Elem x xs
  unfolding sort_slice
  Elem-of_sort_slice x [] m = m
  Elem-of_sort_slice x (y ∷ ys) m = elim (Elem-insert_sorted y x (sort_slice less ys) m) [
    | inl e ↦ inl e
    | inr k ↦ inr (Elem-of_sort_slice x ys k)
  ]

  Elem-insert_sorted_self : (a : A) (xs : List A) → Elem a (insert_sorted less a xs)
  unfolding insert_sorted
  Elem-insert_sorted_self a [] = inl refl
  Elem-insert_sorted_self a (y ∷ ys) = elim (Bool-cases (less y a)) [
    | inl h ↦ rw h (inr (Elem-insert_sorted_self a ys))
    | inr h ↦ rw h (inl refl)
  ]

  Elem-insert_sorted_old : (a x : A) (xs : List A) → Elem x xs → Elem x (insert_sorted less a xs)
  unfolding insert_sorted
  Elem-insert_sorted_old a x [] m = elim m [ ]
  Elem-insert_sorted_old a x (y ∷ ys) m = elim (Bool-cases (less y a)) [
    | inl h ↦ rw h (elim m [ inl e ↦ inl e | inr k ↦ inr (Elem-insert_sorted_old a x ys k) ])
    | inr h ↦ rw h (inr m)
  ]

  -- and no others.
  pub Elem-sort_slice : (x : A) (xs : List A) → Elem x xs → Elem x (sort_slice less xs)
  unfolding sort_slice
  Elem-sort_slice x [] m = elim m [ ]
  Elem-sort_slice x (y ∷ ys) (inl e) =
      subst (λ z. Elem z (insert_sorted less y (sort_slice less ys))) e
        (Elem-insert_sorted_self y (sort_slice less ys))
  Elem-sort_slice x (y ∷ ys) (inr m) =
      Elem-insert_sorted_old y x (sort_slice less ys) (Elem-sort_slice x ys m)
