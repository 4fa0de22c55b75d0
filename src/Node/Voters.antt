-- ===== src/Node/Voters.antt =====
-- The groups of collectTickets (internal/node/network.go): whose responses they hold, each under its
-- own hash.
use ai_po_w_unified_dag.Prelude.{
  refl, ap, ◌≡◌, inl, inr, List, [], ◌∷◌, ◌++◌, false, none, some, Bytes, lookup, insert, All,
  All-append, ◌==◌, bytes_eq, nat_eq, eq_bytes, eq_bytes_iff, Bool-cases, Option-cases, arith,
  distinct, Elem, contains, keys, All-intro, ◌||◌, true,
}
use ai_po_w_unified_dag.Protocol.{MiningResponse, Crypto, hash_json, hash_bytes}
use ai_po_w_unified_dag.Protocol.Primitives.{result}
use ai_po_w_unified_dag.Node.Collect.{Answer, Groups, group_at, group_responses}
use ai_po_w_unified_dag.Node.Plurality.{AreNamed, All-lookup, All-insert}

keys-insert :
    (hash k : Bytes) (responses : List MiningResponse) (groups : Groups)
    → contains (keys (insert hash responses groups)) k ≡ (hash == k || contains (keys groups) k)
unfolding contains keys insert
keys-insert hash k responses [] = ground arith
keys-insert hash k responses ((j, old) ∷ groups) = ground (
  arith,
  keys-insert hash k responses groups,
  eq_bytes_iff j hash,
  eq_bytes_iff hash k,
  eq_bytes_iff j k,
)

insert-distinct :
    (hash : Bytes) (responses : List MiningResponse) (groups : Groups)
    → distinct (keys groups) ≡ true
    → distinct (keys (insert hash responses groups)) ≡ true
unfolding distinct contains keys insert
insert-distinct hash responses [] h = ground arith
insert-distinct hash responses ((j, old) ∷ groups) h = ground (
  arith,
  insert-distinct hash responses groups,
  keys-insert hash j responses groups,
  eq_bytes_iff j hash,
  eq_bytes_iff hash j,
)

contains-keys :
    (groups : Groups) (k : Bytes) (responses : List MiningResponse)
    → Elem (k, responses) groups
    → contains (keys groups) k ≡ true
unfolding contains keys
contains-keys [] k responses m = elim m [ ]
contains-keys ((j, old) ∷ groups) k responses (inl e) =
    let same : j ≡ k = ap (λ (g : Bytes × List MiningResponse). g.0) e in
    ground (arith, eq_bytes_iff j k)
contains-keys ((j, old) ∷ groups) k responses (inr m) =
    ground (arith, contains-keys groups k responses m)

-- With one group for each hash, the map gives a group under its hash.
lookup-Elem :
    (groups : Groups) (k : Bytes) (responses : List MiningResponse)
    → distinct (keys groups) ≡ true
    → Elem (k, responses) groups
    → lookup k groups ≡ some responses
unfolding lookup distinct keys
lookup-Elem [] k responses d m = elim m [ ]
lookup-Elem ((j, old) ∷ groups) k responses d (inl e) =
    let same : j ≡ k = ap (λ (g : Bytes × List MiningResponse). g.0) e in
    let here = (eq_bytes_iff j k).1 same in
    rw here (ap some (ap (λ (g : Bytes × List MiningResponse). g.1) e))
lookup-Elem ((j, old) ∷ groups) k responses d (inr m) =
    let there = contains-keys groups k responses m in
    let rest : distinct (keys groups) ≡ true = ground arith in
    elim (Bool-cases (j == k)) [
      | inl same ↦
          let e : j ≡ k = (eq_bytes_iff j k).0 same in
          let found : contains (keys groups) j ≡ true = rw e there in ground (arith, found)
      | inr apart ↦ rw apart (lookup-Elem groups k responses rest m)
    ]

module _ ⦃c : Crypto⦄ where
  group_responses-distinct :
      (answers : List Answer) (groups : Groups)
      → distinct (keys groups) ≡ true
      → distinct (keys (group_responses answers groups)) ≡ true
  unfolding group_responses
  group_responses-distinct [] groups d = d
  group_responses-distinct ((id, none) ∷ answers) groups d =
      group_responses-distinct answers groups d
  group_responses-distinct ((id, some r) ∷ answers) groups d =
      let h = hash_json (result r.result) in
      elim (Bool-cases (r.ticket.miner_id == id)) [
        | inr other ↦ rw (other, group_responses) (group_responses-distinct answers groups d)
        | inl own ↦
            rw (own, group_responses)
              (group_responses-distinct answers (insert h (group_at h groups ++ r ∷ []) groups)
                (insert-distinct h (group_at h groups ++ r ∷ []) groups d))
      ]

  -- Each group is what the map gives for its hash.
  pub group_responses-lookup :
      (answers : List Answer)
      → All (λ g. lookup g.0 (group_responses answers []) ≡ some g.1) (group_responses answers [])
  unfolding distinct keys
  group_responses-lookup answers =
      All-intro (λ g. lookup g.0 (group_responses answers []) ≡ some g.1)
        (group_responses answers [])
        (λ g m.
          lookup-Elem (group_responses answers []) g.0 g.1
            (group_responses-distinct answers [] refl) m)

  -- The response is one of the answers, under the name of the miner that was asked, with a result of
  -- the hash.
  abbrev pub IsVoteOf : List Answer → Bytes → MiningResponse → Type 0
  IsVoteOf answers hash r =
      (id : Bytes) × Elem (id, some r) answers
      × (r.ticket.miner_id ≡ id)
      × (hash_json (result r.result) ≡ hash)

  abbrev pub AreOf : List Answer → Bytes → List MiningResponse → Type 0
  AreOf answers hash responses = All (IsVoteOf answers hash) responses

  group_at-AreOf :
      (asked : List Answer) (hash : Bytes) (groups : Groups)
      → All (λ g. AreOf asked g.0 g.1) groups
      → AreOf asked hash (group_at hash groups)
  unfolding group_at
  group_at-AreOf asked hash groups all = elim (Option-cases (lookup hash groups)) [
    | inl missing ↦ rw (missing, group_at) tt
    | inr (responses, found) ↦ rw (found, group_at) (All-lookup (AreOf asked) groups hash all found)
  ]

  pub group_responses-AreOf :
      (asked answers : List Answer) (groups : Groups)
      → ((a : Answer) → Elem a answers → Elem a asked)
      → All (λ g. AreOf asked g.0 g.1) groups
      → AreNamed groups
      → All (λ g. AreOf asked g.0 g.1) (group_responses answers groups)
        × AreNamed (group_responses answers groups)
  unfolding group_responses hash_bytes hash_json eq_bytes
  group_responses-AreOf asked [] groups sub all named = (all, named)
  group_responses-AreOf asked ((id, none) ∷ answers) groups sub all named =
      group_responses-AreOf asked answers groups (λ a m. sub a (inr m)) all named
  group_responses-AreOf asked ((id, some r) ∷ answers) groups sub all named =
      let h = hash_json (result r.result) in
      let added = insert h (group_at h groups ++ r ∷ []) groups in
      elim (Bool-cases (r.ticket.miner_id == id)) [
        | inr other ↦
            rw (other, group_responses)
              (group_responses-AreOf asked answers groups (λ a m. sub a (inr m)) all named)
        | inl own ↦
            rw (own, group_responses)
              (group_responses-AreOf asked answers added (λ a m. sub a (inr m))
                (All-insert (AreOf asked) groups h (group_at h groups ++ r ∷ []) all (
                  All-append (IsVoteOf asked h) (group_at h groups) (r ∷ [])
                    (group_at-AreOf asked h groups all)
                    (
                      (
                        id,
                        sub (id, some r) (inl refl),
                        (eq_bytes_iff r.ticket.miner_id id).0 own,
                        refl,
                      ),
                      tt,
                    )))
                (All-insert (λ k rs. (k == []) ≡ false) groups h (group_at h groups ++ r ∷ []) named
                  refl))
      ]
