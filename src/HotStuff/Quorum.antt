-- ===== src/HotStuff/Quorum.antt =====
-- Two quorums of one validator set share an honest validator.
use ai_po_w_unified_dag.Prelude.{
  suc, ◌+◌, ◌*◌, ◌/◌, ◌≤◌, ◌<◌, ◌≡◌, ap, ◌⊎◌, inl, inr, List, [], ◌∷◌, Bool, true, false, not, ◌&&◌,
  arith, length, count_if, contains, distinct, All, Eq, ◌==◌, Bool-cases,
}

module _ {A : Type 0} ⦃e : Eq A⦄ where
  contains-congr : (xs : List A) (a b : A) → (a == b) ≡ true → contains xs a ≡ contains xs b
  contains-congr xs a b h = ap (contains xs) ((e.same_iff a b).0 h)

  count_if-cons_mono :
      (x : A) (xs ids : List A) → count_if (contains xs) ids ≤ count_if (contains (x ∷ xs)) ids
  unfolding contains
  count_if-cons_mono x xs [] = omega arith
  count_if-cons_mono x xs (i ∷ ids) = ground (arith, count_if-cons_mono x xs ids)

  -- One more member, and one more of those counted.
  count_if-cons :
      (x : A) (xs ids : List A)
      → contains ids x ≡ true
      → contains xs x ≡ false
      → suc (count_if (contains xs) ids) ≤ count_if (contains (x ∷ xs)) ids
  unfolding contains
  count_if-cons x xs [] h k = cc
  count_if-cons x xs (i ∷ ids) h k = ground (
    arith,
    count_if-cons x xs ids,
    count_if-cons_mono x xs ids,
    contains-congr xs i x,
    e.same_iff i x,
    e.same_iff x i,
  )

  -- Distinct members of `ids` are at most as many as the entries of `ids` that are among them.
  pub length-le-count_if :
      (xs ids : List A)
      → distinct xs ≡ true
      → All (λ x. contains ids x ≡ true) xs
      → length xs ≤ count_if (contains xs) ids
  unfolding distinct
  length-le-count_if [] ids d h = omega arith
  length-le-count_if (x ∷ xs) ids d h =
      ground (arith, length-le-count_if xs ids, count_if-cons x xs ids h.0, h.1)

  -- Either some entry passes three tests, or the first two together pass few entries.
  pub common-or-few :
      (p q honest : A → Bool) (ids : List A)
      → ((i : A) × (p i ≡ true) × (q i ≡ true) × (honest i ≡ true))
        ⊎ (count_if p ids + count_if q ids ≤ length ids + count_if (λ i. not (honest i)) ids)
  common-or-few p q honest [] = inr (omega arith)
  common-or-few p q honest (i ∷ ids) = elim (common-or-few p q honest ids) [
    | inl found ↦ inl found
    | inr few ↦ elim (Bool-cases (p i && q i && honest i)) [
      | inl all ↦ inl (i, ground arith, ground arith, ground arith)
      | inr some_fail ↦ inr (ground arith)
    ]
  ]

  -- Two sets of more than two thirds of the entries share an honest one, where less than a third is
  -- faulty.
  pub quorums-share :
      (xs ys ids : List A) (honest : A → Bool)
      → distinct xs ≡ true
      → distinct ys ≡ true
      → All (λ x. contains ids x ≡ true) xs
      → All (λ y. contains ids y ≡ true) ys
      → 2 * length ids / 3 + 1 ≤ length xs
      → 2 * length ids / 3 + 1 ≤ length ys
      → 3 * count_if (λ i. not (honest i)) ids < length ids
      → (i : A) × (contains xs i ≡ true) × (contains ys i ≡ true) × (honest i ≡ true)
  quorums-share xs ys ids honest dx dy hx hy qx qy few =
      elim (common-or-few (contains xs) (contains ys) honest ids) [
        | inl found ↦ found
        | inr small ↦
            absurd (omega (arith, length-le-count_if xs ids dx hx, length-le-count_if ys ids dy hy))
      ]
