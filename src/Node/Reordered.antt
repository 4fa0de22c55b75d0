-- ===== src/Node/Reordered.antt =====
-- The order of the tickets does not matter to validateCompetition (internal/node/node.go), nor does
-- that of the map of the proofs, so that Propose (internal/node/network.go) may sort both.
use ai_po_w_unified_dag.Prelude.{
  refl, sym, ◌∙◌, ◌≡◌, ℕ, List, [], ◌∷◌, false, some, Bytes, Bool, ok, contains, sort_slice,
  sort_slice-related, bytes_eq, eq_bytes_iff, Bool-cases, Option-cases, inl, inr, arith,
}
use ai_po_w_unified_dag.Prelude.Results.{>>-ok}
use ai_po_w_unified_dag.Protocol.{PowTicket, Crypto}
use ai_po_w_unified_dag.HotStuff.Validators.{public_key}
use ai_po_w_unified_dag.Node.State.{Node, Environment}
use ai_po_w_unified_dag.Node.Competition.{Round, check_sealed, check_ticket, check_tickets}
use ai_po_w_unified_dag.Node.ProofMap.{ByMiner, AreSame}

module _ ⦃v : Environment⦄ ⦃c : Crypto⦄ where
  check_sealed_same :
      (fuel : ℕ) (n : Node) (round : Round) (m m' : ByMiner) (t : PowTicket)
      → AreSame m m'
      → check_sealed fuel n round m t ≡ check_sealed fuel n round m' t
  unfolding check_sealed
  check_sealed_same fuel n round m m' t same = elim (Option-cases n.ai_seal_manifest) [
    | inl none_given ↦ simp (none_given, check_sealed)
    | inr (manifest, given) ↦ simp (given, check_sealed, same t.miner_id)
  ]

  check_ticket_same :
      (fuel : ℕ) (n : Node) (round : Round) (m m' : ByMiner) (t : PowTicket) (key : Bytes)
      → AreSame m m'
      → check_ticket fuel n round m t key ≡ check_ticket fuel n round m' t key
  unfolding check_ticket
  check_ticket_same fuel n round m m' t key same =
      rw (check_sealed_same fuel n round m m' t same) refl

  check_tickets-ok_head :
      (fuel : ℕ) (n : Node) (round : Round) (m : ByMiner) (seen : List Bytes) (t : PowTicket)
      (ts : List PowTicket)
      → check_tickets fuel n round m seen (t ∷ ts) ≡ ok tt
      → (contains seen t.miner_id ≡ false)
        × ((key : Bytes) × (public_key n.validators t.miner_id ≡ some key)
            × (check_ticket fuel n round m t key ≡ ok tt))
        × (check_tickets fuel n round m (t.miner_id ∷ seen) ts ≡ ok tt)
  unfolding check_tickets
  check_tickets-ok_head fuel n round m seen t ts h = elim (Bool-cases (contains seen t.miner_id)) [
    | inl twice ↦ let k = rw (twice, check_tickets) at h in cc k
    | inr fresh ↦ elim (Option-cases (public_key n.validators t.miner_id)) [
      | inl unknown ↦ let k = rw (fresh, check_tickets) at h in let l = rw unknown at k in cc l
      | inr (key, known) ↦
          let k = rw (fresh, check_tickets) at h in
          let (here, rest) = >>-ok (check_ticket fuel n round m t key) _ (rw known at k) in
          (fresh, (key, known, here), rest)
    ]
  ]

  check_tickets-cons :
      (fuel : ℕ) (n : Node) (round : Round) (m : ByMiner) (seen : List Bytes) (t : PowTicket)
      (ts : List PowTicket) (key : Bytes)
      → contains seen t.miner_id ≡ false
      → public_key n.validators t.miner_id ≡ some key
      → check_ticket fuel n round m t key ≡ ok tt
      → check_tickets fuel n round m (t.miner_id ∷ seen) ts ≡ ok tt
      → check_tickets fuel n round m seen (t ∷ ts) ≡ ok tt
  unfolding check_tickets
  check_tickets-cons fuel n round m seen t ts key fresh known here rest =
      rw (fresh, check_tickets) (rw known (rw here rest))

  pub check_tickets_same :
      (fuel : ℕ) (n : Node) (round : Round) (m m' : ByMiner) (seen : List Bytes)
      (ts : List PowTicket)
      → AreSame m m'
      → check_tickets fuel n round m seen ts ≡ ok tt
      → check_tickets fuel n round m' seen ts ≡ ok tt
  unfolding check_tickets
  check_tickets_same fuel n round m m' seen [] same h = refl
  check_tickets_same fuel n round m m' seen (t ∷ ts) same h =
      let (fresh, (key, known, here), rest) = check_tickets-ok_head fuel n round m seen t ts h in
      check_tickets-cons fuel n round m' seen t ts key fresh known
        (sym (check_ticket_same fuel n round m m' t key same) ∙ here)
        (check_tickets_same fuel n round m m' (t.miner_id ∷ seen) ts same rest)

  module _ (fuel : ℕ) (n : Node) (round : Round) (m : ByMiner) where
    -- The loop over the second list, with the same miners seen, accepts too.
    abbrev Accepts : List PowTicket → List PowTicket → Type 0
    Accepts ts us =
        (seen seen' : List Bytes)
        → ((id : Bytes) → contains seen id ≡ contains seen' id)
        → check_tickets fuel n round m seen ts ≡ ok tt
        → check_tickets fuel n round m seen' us ≡ ok tt

    seen-cons :
        (id : Bytes) (seen seen' : List Bytes)
        → ((k : Bytes) → contains seen k ≡ contains seen' k)
        → (k : Bytes) → contains (id ∷ seen) k ≡ contains (id ∷ seen') k
    unfolding contains
    seen-cons id seen seen' same k = ground (arith, same k)

    Accepts-cons :
        (t : PowTicket) (ts us : List PowTicket) → Accepts ts us → Accepts (t ∷ ts) (t ∷ us)
    Accepts-cons t ts us f seen seen' same h =
        let (fresh, (key, known, here), rest) = check_tickets-ok_head fuel n round m seen t ts h in
        check_tickets-cons fuel n round m seen' t us key (sym (same t.miner_id) ∙ fresh) known here
          (f (t.miner_id ∷ seen) (t.miner_id ∷ seen') (seen-cons t.miner_id seen seen' same) rest)

    Accepts-refl : (ts : List PowTicket) → Accepts ts ts
    unfolding check_tickets
    Accepts-refl [] seen seen' same h = refl
    Accepts-refl (t ∷ ts) seen seen' same h =
        Accepts-cons t ts ts (Accepts-refl ts) seen seen' same h

    Accepts-swap : (a b : PowTicket) (ts : List PowTicket) → Accepts (a ∷ b ∷ ts) (b ∷ a ∷ ts)
    unfolding contains
    Accepts-swap a b ts seen seen' same h =
        let (fresh_a, (key_a, known_a, here_a), h) =
          check_tickets-ok_head fuel n round m seen a (b ∷ ts) h in
        let (fresh_b, (key_b, known_b, here_b), rest) =
          check_tickets-ok_head fuel n round m (a.miner_id ∷ seen) b ts h in
        check_tickets-cons fuel n round m seen' b (a ∷ ts) key_b
          (ground (arith, same b.miner_id, fresh_b)) known_b here_b
          (check_tickets-cons fuel n round m (b.miner_id ∷ seen') a ts key_a
            (ground (
              arith,
              same a.miner_id,
              fresh_a,
              fresh_b,
              eq_bytes_iff a.miner_id b.miner_id,
              eq_bytes_iff b.miner_id a.miner_id,
            ))
            known_a here_a
            (Accepts-refl ts (b.miner_id ∷ a.miner_id ∷ seen) (a.miner_id ∷ b.miner_id ∷ seen')
              (λ id. ground (arith, same id)) rest))

    Accepts-trans : (ts us ws : List PowTicket) → Accepts ts us → Accepts us ws → Accepts ts ws
    Accepts-trans ts us ws f g seen seen' same h = g seen' seen' (λ id. refl) (f seen seen' same h)

    -- Sorted tickets are accepted too.
    pub check_tickets-sort_slice :
        (less : PowTicket → PowTicket → Bool) (ts : List PowTicket)
        → check_tickets fuel n round m [] ts ≡ ok tt
        → check_tickets fuel n round m [] (sort_slice less ts) ≡ ok tt
    check_tickets-sort_slice less ts h =
        sort_slice-related less Accepts Accepts-refl Accepts-cons Accepts-swap Accepts-trans ts []
          [] (λ id. refl) h
