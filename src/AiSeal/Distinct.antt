-- ===== src/AiSeal/Distinct.antt =====
-- The indexes that sampleUnique chooses (internal/aiseal/verify.go).
use native.Mathlib.Nat.{mod-lt}
use ai_po_w_unified_dag.Go.Binary.{get_uint}
use ai_po_w_unified_dag.AiSeal.Encoding.{tagged_hash, write_uint64}
use ai_po_w_unified_dag.Prelude.{
  refl, ok, zero, suc, ℕ, ◌+◌, ◌<◌, ◌≤◌, ◌≡◌, List, [], ◌∷◌, ◌++◌, length, All, All-append,
  contains, distinct, distinct-snoc, sort_slice, insert_sorted, length-sort_slice, All-sort_slice,
  Bool-cases, arith, ltb, nat_eq, nat_beq_iff, Bytes, true, ◌^◌, inr, subst, inl, u64, ◌==◌, ◌||◌,
  ◌∙◌,
}
use ai_po_w_unified_dag.Prelude.Results.{Result-cases}
use ai_po_w_unified_dag.Protocol.{Crypto}
use ai_po_w_unified_dag.AiSeal.Types.{Manifest, Seal}
use ai_po_w_unified_dag.AiSeal.Sample.{draw, draw_all, sample_unique, sample_seed}

contains-insert_sorted :
    (a y : ℕ) (xs : List ℕ) → contains (insert_sorted ltb a xs) y ≡ contains (a ∷ xs) y
unfolding contains insert_sorted
contains-insert_sorted a y [] = refl
contains-insert_sorted a y (x ∷ xs) = ground (arith, contains-insert_sorted a y xs)

distinct-insert_sorted :
    (a : ℕ) (xs : List ℕ) → distinct (a ∷ xs) ≡ true → distinct (insert_sorted ltb a xs) ≡ true
unfolding distinct contains insert_sorted
distinct-insert_sorted a [] h = refl
distinct-insert_sorted a (x ∷ xs) h = ground (
  arith,
  contains-insert_sorted a x xs,
  distinct-insert_sorted a xs,
  nat_beq_iff a x,
  nat_beq_iff x a,
)

contains-sort_slice : (xs : List ℕ) (y : ℕ) → contains (sort_slice ltb xs) y ≡ contains xs y
unfolding contains sort_slice
contains-sort_slice [] y = refl
contains-sort_slice (x ∷ xs) y =
    ground (arith, contains-insert_sorted x y (sort_slice ltb xs), contains-sort_slice xs y)

distinct-sort_slice : (xs : List ℕ) → distinct xs ≡ true → distinct (sort_slice ltb xs) ≡ true
unfolding distinct sort_slice
distinct-sort_slice [] h = refl
distinct-sort_slice (x ∷ xs) h =
    distinct-insert_sorted x (sort_slice ltb xs)
      (ground (arith, contains-sort_slice xs x, distinct-sort_slice xs))

no_repeats : distinct {A = ℕ} [] ≡ true
unfolding distinct
no_repeats = refl

length-snoc : (xs : List ℕ) (a : ℕ) → length (xs ++ a ∷ []) ≡ length xs + 1
length-snoc [] a = refl
length-snoc (x ∷ xs) a = omega (arith, length-snoc xs a)

module _ ⦃c : Crypto⦄ where
  draw-range :
      (domain seed : Bytes) (counter start span : ℕ)
      → 0 < span
      → start + span ≤ 2 ^ 64
      → (start ≤ draw domain seed counter start span)
        × (draw domain seed counter start span < start + span)
  unfolding draw
  draw-range domain seed counter start span some_span fits =
      let below =
        mod-lt (get_uint 8 (tagged_hash domain (seed ++ write_uint64 counter))) some_span in
      (omega (arith, below), omega (arith, below))

  -- Indexes of a span, each once, not more than there shall be.
  record AreDrawn (start span count : ℕ) (out : List ℕ) : Type 0 where
    once : distinct out ≡ true
    within : All (λ i. (start ≤ i) × (i < start + span)) out
    enough : length out ≤ count

  draw_all-AreDrawn :
      (fuel : ℕ) (domain seed : Bytes) (count start span counter : ℕ) (out : List ℕ) {done : List ℕ}
      → 0 < span
      → start + span ≤ 2 ^ 64
      → AreDrawn start span count out
      → draw_all fuel domain seed count start span counter out ≡ ok done
      → AreDrawn start span count done × (length done ≡ count)
  unfolding draw_all
  draw_all-AreDrawn zero domain seed count start span counter out p fits k h = cc
  draw_all-AreDrawn (suc fuel) domain seed count start span counter out {done} p fits k h =
      elim (Bool-cases (ltb (length out) count)) [
        | inr full ↦
            let done_is : out ≡ done = cc (rw (full, draw_all) at h) in
            subst (λ z. AreDrawn start span count z × (length z ≡ count)) done_is (k, ground arith)
        | inl more ↦ elim (Bool-cases (contains out (draw domain seed counter start span))) [
          | inl old ↦
              draw_all-AreDrawn fuel domain seed count start span (u64 (counter + 1)) out p fits k
                (rw (more, draw_all, old) at h)
          | inr new ↦
              draw_all-AreDrawn fuel domain seed count start span (u64 (counter + 1))
                (out ++ draw domain seed counter start span ∷ []) p fits
                (record {
                  once = distinct-snoc out (draw domain seed counter start span) k.once new;
                  within =
                      All-append _ out _ k.within
                        (draw-range domain seed counter start span p fits, tt);
                  enough = ground (arith, length-snoc out (draw domain seed counter start span));
                })
                (rw (more, draw_all, new) at h)
        ]
      ]

  -- sampleUnique, when its loop ends, gives as many indexes as it was asked for, each once and all
  -- in the span from the start; the span is not empty and does not pass 2 ^ 64.
  pub sample_unique-distinct :
      (fuel : ℕ) (domain : Bytes) (m : Manifest) (seal : Seal) (count start span : ℕ) {out : List ℕ}
      → 0 < span
      → start + span ≤ 2 ^ 64
      → sample_unique fuel domain m seal count start span ≡ ok out
      → (distinct out ≡ true)
        × All (λ i. (start ≤ i) × (i < start + span)) out
        × (length out ≡ count)
  unfolding sample_unique
  sample_unique-distinct fuel domain m seal count start span {out} p fits h =
      elim (Bool-cases (count == 0 || span == 0)) [
        | inl none_wanted ↦
            let nothing : [] ≡ out = cc (rw none_wanted at h) in
            subst
              (λ z.
                (distinct z ≡ true)
                × All (λ i. (start ≤ i) × (i < start + span)) z
                × (length z ≡ count))
              nothing (no_repeats, tt, ground arith)
        | inr wanted ↦
            elim (Result-cases (
              draw_all fuel domain (sample_seed domain m seal count start span) count start span 0
                [])) [
                  | inr (e, bad) ↦ let k = rw (wanted, bad, sample_unique) at h in cc
                  | inl (drawn, good) ↦
                      let k = rw (wanted, good, sample_unique) at h in
                      let sorted : sort_slice ltb drawn ≡ out = cc k in
                      let (each, full) =
                        draw_all-AreDrawn fuel domain (sample_seed domain m seal count start span)
                          count start span 0 [] p fits
                          (record { once = no_repeats; within = tt; enough = omega arith }) good in
                      subst
                        (λ z.
                          (distinct z ≡ true)
                          × All (λ i. (start ≤ i) × (i < start + span)) z
                          × (length z ≡ count))
                        sorted
                        (
                          distinct-sort_slice drawn each.once,
                          All-sort_slice ltb _ drawn each.within,
                          length-sort_slice ltb drawn ∙ full,
                        )
                ]
      ]
