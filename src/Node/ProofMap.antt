-- ===== src/Node/ProofMap.antt =====
-- The order of the proofs does not matter to the map that validateCompetition makes of them
-- (internal/node/node.go).
use ai_po_w_unified_dag.Prelude.{
  refl, sym, ◌∙◌, ap, ◌≡◌, List, [], ◌∷◌, false, none, some, Bytes, Bool, ok, lookup, insert,
  lookup-insert, sort_slice, sort_slice-related, ◌==◌, bytes_eq, eq_bytes_iff, Bool-cases,
  Option-cases, inl, inr, arith, if◌then◌else◌,
}
use ai_po_w_unified_dag.Protocol.{AiProofBundle}
use ai_po_w_unified_dag.Node.Competition.{proofs_by_miner}

abbrev pub ByMiner : Type 0
ByMiner = List (Bytes × AiProofBundle)

-- Two maps with the same entries.
abbrev pub AreSame : ByMiner → ByMiner → Type 0
AreSame m m' = (id : Bytes) → lookup id m ≡ lookup id m'

insert-AreSame :
    (p : AiProofBundle) (m m' : ByMiner)
    → AreSame m m'
    → AreSame (insert p.miner_id p m) (insert p.miner_id p m')
insert-AreSame p m m' same id =
    ground (arith, lookup-insert p.miner_id id p m, lookup-insert p.miner_id id p m', same id)

proofs_by_miner-ok :
    (p : AiProofBundle) (ps : List AiProofBundle) (m : ByMiner) {r : ByMiner}
    → proofs_by_miner (p ∷ ps) m ≡ ok r
    → (lookup p.miner_id m ≡ none) × (proofs_by_miner ps (insert p.miner_id p m) ≡ ok r)
unfolding proofs_by_miner
proofs_by_miner-ok p ps m h = elim (Option-cases (lookup p.miner_id m)) [
  | inl absent ↦ (absent, rw (absent, proofs_by_miner) at h)
  | inr (old, found) ↦ let k = rw (found, proofs_by_miner) at h in cc k
]

proofs_by_miner-cons :
    (p : AiProofBundle) (ps : List AiProofBundle) (m : ByMiner)
    → lookup p.miner_id m ≡ none
    → proofs_by_miner (p ∷ ps) m ≡ proofs_by_miner ps (insert p.miner_id p m)
unfolding proofs_by_miner
proofs_by_miner-cons p ps m absent = rw (absent, proofs_by_miner) refl

-- The loop over the second list, from a map with the same entries, ends with the same entries.
abbrev Follows : List AiProofBundle → List AiProofBundle → Type 0
Follows ps qs =
    (m m' r : ByMiner)
    → AreSame m m'
    → proofs_by_miner ps m ≡ ok r
    → (r' : ByMiner) × (proofs_by_miner qs m' ≡ ok r') × AreSame r r'

Follows-refl : (ps : List AiProofBundle) → Follows ps ps
unfolding proofs_by_miner
Follows-refl [] m m' r same h =
    let e : m ≡ r = cc h in (m', refl, λ id. ap (lookup id) (sym e) ∙ same id)
Follows-refl (p ∷ ps) m m' r same h =
    let (absent, h) = proofs_by_miner-ok p ps m h in
    let (r', good, after) =
      Follows-refl ps (insert p.miner_id p m) (insert p.miner_id p m') r
        (insert-AreSame p m m' same) h in
    (r', proofs_by_miner-cons p ps m' (sym (same p.miner_id) ∙ absent) ∙ good, after)

Follows-cons :
    (p : AiProofBundle) (ps qs : List AiProofBundle) → Follows ps qs → Follows (p ∷ ps) (p ∷ qs)
Follows-cons p ps qs f m m' r same h =
    let (absent, h) = proofs_by_miner-ok p ps m h in
    let (r', good, after) =
      f (insert p.miner_id p m) (insert p.miner_id p m') r (insert-AreSame p m m' same) h in
    (r', proofs_by_miner-cons p qs m' (sym (same p.miner_id) ∙ absent) ∙ good, after)

Follows-swap : (a b : AiProofBundle) (ps : List AiProofBundle) → Follows (a ∷ b ∷ ps) (b ∷ a ∷ ps)
Follows-swap a b ps m m' r same h =
    let (no_a, h) = proofs_by_miner-ok a (b ∷ ps) m h in
    let (no_b, h) = proofs_by_miner-ok b ps (insert a.miner_id a m) h in
    let e = lookup-insert a.miner_id b.miner_id a m in
    elim (Bool-cases (a.miner_id == b.miner_id)) [
      | inl twin ↦ let k : some a ≡ none = sym (rw (twin, if◌then◌else◌) at e) ∙ no_b in cc k
      | inr apart ↦
          let fresh : lookup b.miner_id m ≡ none = sym (rw (apart, if◌then◌else◌) at e) ∙ no_b in
          let turned : (b.miner_id == a.miner_id) ≡ false =
            ground
              (arith, eq_bytes_iff b.miner_id a.miner_id, eq_bytes_iff a.miner_id b.miner_id) in
          let f = lookup-insert b.miner_id a.miner_id b m' in
          let free : lookup a.miner_id (insert b.miner_id b m') ≡ none =
            (rw (turned, if◌then◌else◌) at f) ∙ (sym (same a.miner_id) ∙ no_a) in
          let (r', good, after) =
            Follows-refl ps (insert b.miner_id b (insert a.miner_id a m))
              (insert a.miner_id a (insert b.miner_id b m')) r
              (λ id. ground (
                arith,
                lookup-insert b.miner_id id b (insert a.miner_id a m),
                lookup-insert a.miner_id id a m,
                lookup-insert a.miner_id id a (insert b.miner_id b m'),
                lookup-insert b.miner_id id b m',
                same id,
                eq_bytes_iff a.miner_id id,
                eq_bytes_iff b.miner_id id,
                eq_bytes_iff a.miner_id b.miner_id,
              ))
              h in
          (
            r',
            proofs_by_miner-cons b (a ∷ ps) m' (sym (same b.miner_id) ∙ fresh)
                ∙ (proofs_by_miner-cons a ps (insert b.miner_id b m') free ∙ good),
            after,
          )
    ]

Follows-trans : (ps qs rs : List AiProofBundle) → Follows ps qs → Follows qs rs → Follows ps rs
Follows-trans ps qs rs f g m m' r same h =
    let (r', good, after) = f m m' r same h in
    let (r'', well, later) = g m' m' r' (λ id. refl) good in (r'', well, λ id. after id ∙ later id)

-- The map of sorted proofs has the same entries.
pub proofs_by_miner-sort_slice :
    (less : AiProofBundle → AiProofBundle → Bool) (ps : List AiProofBundle) {r : ByMiner}
    → proofs_by_miner ps [] ≡ ok r
    → (r' : ByMiner) × (proofs_by_miner (sort_slice less ps) [] ≡ ok r') × AreSame r r'
proofs_by_miner-sort_slice less ps {r} h =
    sort_slice-related less Follows Follows-refl Follows-cons Follows-swap Follows-trans ps [] [] r
      (λ id. refl) h
