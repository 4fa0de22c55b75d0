-- ===== src/Node/Plurality.antt =====
-- What collectTickets chooses (internal/node/network.go): the result of most miners.
use ai_po_w_unified_dag.Prelude.{
  refl, sym, subst, ◌≡◌, inl, inr, List, [], ◌∷◌, true, false, some, Bytes, lookup, insert, All,
  lt_bytes_trans, lt_bytes_irrefl, lt_bytes-asym, lt_bytes-neg_trans, ◌==◌, bytes_eq, nat_eq,
  eq_bytes_iff, Bool-cases, arith,
}
use ai_po_w_unified_dag.Protocol.{MiningResponse}
use ai_po_w_unified_dag.Node.Collect.{Groups, Choice, is_better, select}

abbrev start : Choice
start = record { selected = []; selected_hash = [] }

-- No group of the list beats the choice.
abbrev pub Unbeaten : Groups → Choice → Type 0
Unbeaten groups c = All (λ g. is_better g.0 g.1 c ≡ false) groups

-- A group that does not beat a choice does not beat one that beats it.
is_better_mono :
    (hash other : Bytes) (responses more : List MiningResponse) (c : Choice)
    → (other == []) ≡ false
    → is_better hash responses c ≡ false
    → is_better other more c ≡ true
    → is_better hash responses (record { selected = more; selected_hash = other }) ≡ false
unfolding is_better
is_better_mono hash other responses more c named h k = ground (
  arith,
  lt_bytes-neg_trans hash c.selected_hash other,
  lt_bytes-asym other c.selected_hash,
  lt_bytes-asym hash other,
  lt_bytes_trans hash other c.selected_hash,
)

is_better_irrefl :
    (hash : Bytes) (responses : List MiningResponse)
    → (hash == []) ≡ false
    → is_better hash responses (record { selected = responses; selected_hash = hash }) ≡ false
unfolding is_better
is_better_irrefl hash responses named = ground (arith, lt_bytes_irrefl hash)

-- The hashes of the groups are not empty.
abbrev pub AreNamed : Groups → Type 0
AreNamed groups = All (λ g. (g.0 == []) ≡ false) groups

Unbeaten-mono :
    (seen : Groups) (other : Bytes) (more : List MiningResponse) (c : Choice)
    → (other == []) ≡ false
    → is_better other more c ≡ true
    → Unbeaten seen c
    → Unbeaten seen (record { selected = more; selected_hash = other })
Unbeaten-mono [] other more c named k h = tt
Unbeaten-mono ((hash, responses) ∷ seen) other more c named k (here, h) = (
  is_better_mono hash other responses more c named here k,
  Unbeaten-mono seen other more c named k h,
)

-- No group that the loop has seen, or will see, beats its choice.
pub select-Unbeaten :
    (seen groups : Groups) (c : Choice)
    → AreNamed groups
    → Unbeaten seen c
    → Unbeaten seen (select groups c) × Unbeaten groups (select groups c)
unfolding select
select-Unbeaten seen [] c named h = (h, tt)
select-Unbeaten seen ((hash, responses) ∷ groups) c (name, named) h =
    elim (Bool-cases (is_better hash responses c)) [
      | inl better ↦
          let next : Choice = record { selected = responses; selected_hash = hash } in
          let (before, after) = select-Unbeaten ((hash, responses) ∷ seen) groups next named (
            is_better_irrefl hash responses name,
            Unbeaten-mono seen hash responses c name better h,
          ) in
          let e : select ((hash, responses) ∷ groups) c ≡ select groups next =
            rw (better, select) refl in
          subst (λ x. Unbeaten seen x × Unbeaten ((hash, responses) ∷ groups) x) (sym e)
            (before.1, (before.0, after))
      | inr worse ↦
          let (before, after) =
            select-Unbeaten ((hash, responses) ∷ seen) groups c named (worse, h) in
          let e : select ((hash, responses) ∷ groups) c ≡ select groups c =
            rw (worse, select) refl in
          subst (λ x. Unbeaten seen x × Unbeaten ((hash, responses) ∷ groups) x) (sym e)
            (before.1, (before.0, after))
    ]

-- What holds of every group and of the first choice holds of the last.
pub select-holds :
    (P : Bytes → List MiningResponse → Type 0) (groups : Groups) (c : Choice)
    → All (λ g. P g.0 g.1) groups
    → P c.selected_hash c.selected
    → P (select groups c).selected_hash (select groups c).selected
unfolding select
select-holds P [] c all h = h
select-holds P ((hash, responses) ∷ groups) c (here, all) h =
    elim (Bool-cases (is_better hash responses c)) [
      | inl better ↦
          rw (better, select)
            (select-holds P groups (record { selected = responses; selected_hash = hash }) all here)
      | inr worse ↦ rw (worse, select) (select-holds P groups c all h)
    ]

pub All-lookup :
    (P : Bytes → List MiningResponse → Type 0) (groups : Groups) (hash : Bytes)
    {responses : List MiningResponse}
    → All (λ g. P g.0 g.1) groups
    → lookup hash groups ≡ some responses
    → P hash responses
unfolding lookup
All-lookup P [] hash all h = cc h
All-lookup P ((k, rs) ∷ groups) hash {responses} (here, all) h = elim (Bool-cases (k == hash)) [
  | inl same ↦
      let value : some rs ≡ some responses = rw same at h in
      subst (λ x. P hash x) (cc value) (subst (λ x. P x rs) ((eq_bytes_iff k hash).0 same) here)
  | inr apart ↦ All-lookup P groups hash all (rw apart at h)
]

pub All-insert :
    (P : Bytes → List MiningResponse → Type 0) (groups : Groups) (hash : Bytes)
    (responses : List MiningResponse)
    → All (λ g. P g.0 g.1) groups
    → P hash responses
    → All (λ g. P g.0 g.1) (insert hash responses groups)
unfolding insert
All-insert P [] hash responses all h = (h, tt)
All-insert P ((k, rs) ∷ groups) hash responses (here, all) h = elim (Bool-cases (k == hash)) [
  | inl same ↦ rw (same, insert) (h, all)
  | inr apart ↦ rw (apart, insert) (here, All-insert P groups hash responses all h)
]
