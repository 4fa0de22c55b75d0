-- ===== src/AiPow/Winner.antt =====
-- The winner of SelectWinner (internal/aipow/dummy.go): the least ticket, whatever the order.
use ai_po_w_unified_dag.Prelude.{
  ◌≡◌, refl, sym, ◌∙◌, ap, subst, inl, inr, ◌≢◌, List, [], ◌∷◌, true, false, Bytes, ok, arith,
  contains, distinct, All, Elem, All-Elem, All-intro, sort_slice, IsSorted, StrictOrder,
  sort_slice-IsSorted, Elem-of_sort_slice, lt_bytes-asym, lt_bytes-neg_trans, lt_bytes_total,
  lt_bytes_irrefl, bytes_eq, eq_bytes_iff, insert_sorted, ◌↔◌, Elem-sort_slice,
}
use ai_po_w_unified_dag.Prelude.Results.{Result-cases}
use ai_po_w_unified_dag.Protocol.{PowTicket, Crypto}
use ai_po_w_unified_dag.AiPow.Tickets.{
  verify, verify_all, winner_less, first_of_sorted, select_winner,
}

winner_less-neg_trans :
    (a b c : PowTicket)
    → winner_less a b ≡ false
    → winner_less b c ≡ false
    → winner_less a c ≡ false
unfolding winner_less
winner_less-neg_trans a b c p q = ground (
  arith,
  eq_bytes_iff a.work_hash b.work_hash,
  eq_bytes_iff b.work_hash c.work_hash,
  eq_bytes_iff a.work_hash c.work_hash,
  lt_bytes-neg_trans a.work_hash b.work_hash c.work_hash,
  lt_bytes-neg_trans a.miner_id b.miner_id c.miner_id,
  lt_bytes_total a.work_hash b.work_hash,
  lt_bytes_total b.work_hash c.work_hash,
  lt_bytes-asym a.work_hash b.work_hash,
  lt_bytes-asym b.work_hash c.work_hash,
  lt_bytes_total a.work_hash c.work_hash,
  lt_bytes-asym b.work_hash a.work_hash,
  lt_bytes-asym c.work_hash b.work_hash,
  lt_bytes-neg_trans b.work_hash c.work_hash a.work_hash,
  lt_bytes-neg_trans c.work_hash a.work_hash b.work_hash,
)

winner_less-asym : (a b : PowTicket) → winner_less a b ≡ true → winner_less b a ≡ false
unfolding winner_less
winner_less-asym a b p = ground (
  arith,
  eq_bytes_iff a.work_hash b.work_hash,
  eq_bytes_iff b.work_hash a.work_hash,
  lt_bytes-asym a.work_hash b.work_hash,
  lt_bytes-asym a.miner_id b.miner_id,
)

winner_order : StrictOrder winner_less
winner_order = record { asym = winner_less-asym; neg_trans = winner_less-neg_trans }

winner_less_irrefl : (a : PowTicket) → winner_less a a ≡ false
unfolding winner_less
winner_less_irrefl a =
    ground (arith, eq_bytes_iff a.work_hash a.work_hash, lt_bytes_irrefl a.miner_id)

-- Tickets that the order does not separate have one hash and one miner.
winner_less_total :
    (a b : PowTicket) → winner_less a b ≡ false → winner_less b a ≡ false → a.miner_id ≡ b.miner_id
unfolding winner_less
winner_less_total a b p q = ground (
  arith,
  eq_bytes_iff a.work_hash b.work_hash,
  eq_bytes_iff b.work_hash a.work_hash,
  lt_bytes_total a.work_hash b.work_hash,
  lt_bytes_total a.miner_id b.miner_id,
)

abbrev pub miners : List PowTicket → List Bytes
miners [] = []
miners (t ∷ ts) = t.miner_id ∷ miners ts

contains-miners :
    (ts : List PowTicket) (t : PowTicket) → Elem t ts → contains (miners ts) t.miner_id ≡ true
unfolding contains
contains-miners [] t m = elim m [ ]
contains-miners (x ∷ xs) t (inl e) = ground (arith, eq_bytes_iff x.miner_id t.miner_id)
contains-miners (x ∷ xs) t (inr m) = ground (arith, contains-miners xs t m)

distinct-miners_head :
    (x : PowTicket) (xs : List PowTicket) (b : PowTicket)
    → distinct (miners (x ∷ xs)) ≡ true
    → Elem b xs
    → x.miner_id ≢ b.miner_id
unfolding distinct
distinct-miners_head x xs b d m e =
    let there : contains (miners xs) x.miner_id ≡ true =
      subst (λ i. contains (miners xs) i ≡ true) (sym e) (contains-miners xs b m) in
    ground (arith, there)

distinct-miners_tail :
    (x : PowTicket) (xs : List PowTicket)
    → distinct (miners (x ∷ xs)) ≡ true
    → distinct (miners xs) ≡ true
unfolding distinct
distinct-miners_tail x xs d = ground arith

-- With one ticket for each miner, the miner tells the ticket.
distinct-miners :
    (ts : List PowTicket) (a b : PowTicket)
    → distinct (miners ts) ≡ true
    → Elem a ts
    → Elem b ts
    → a.miner_id ≡ b.miner_id
    → a ≡ b
distinct-miners [] a b d ma mb e = elim ma [ ]
distinct-miners (x ∷ xs) a b d (inl p) (inl q) e = sym p ∙ q
distinct-miners (x ∷ xs) a b d (inl p) (inr q) e =
    absurd (distinct-miners_head x xs b d q (ap (λ (t : PowTicket). t.miner_id) p ∙ e))
distinct-miners (x ∷ xs) a b d (inr p) (inl q) e =
    absurd (distinct-miners_head x xs a d p (ap (λ (t : PowTicket). t.miner_id) q ∙ sym e))
distinct-miners (x ∷ xs) a b d (inr p) (inr q) e =
    distinct-miners xs a b (distinct-miners_tail x xs d) p q e

module _ ⦃c : Crypto⦄ where
  abbrev pub IsVerified : PowTicket → Type 0
  IsVerified t = verify t ≡ ok tt

  verify_all-ok : (ts : List PowTicket) → verify_all ts ≡ ok tt → All IsVerified ts
  unfolding verify_all
  verify_all-ok [] h = tt
  verify_all-ok (t ∷ ts) h = elim (Result-cases (verify t)) [
    | inr (e, bad) ↦ let k = rw (bad, verify_all) at h in cc
    | inl (u, good) ↦ (good, verify_all-ok ts (rw (good, verify_all) at h))
  ]

  verify_all_complete : (ts : List PowTicket) → All IsVerified ts → verify_all ts ≡ ok tt
  unfolding verify_all
  verify_all_complete [] h = refl
  verify_all_complete (t ∷ ts) (good, h) = rw (good, verify_all) (verify_all_complete ts h)

  first_of_sorted-ok :
      (ts : List PowTicket) {w : PowTicket}
      → IsSorted winner_less ts
      → first_of_sorted ts ≡ ok w
      → Elem w ts × All (λ t. winner_less t w ≡ false) ts
  first_of_sorted-ok [] s h = cc
  first_of_sorted-ok (t ∷ ts) {w} s h =
      let e : t ≡ w = cc in
      (
        inl e,
        subst (λ x. All (λ y. winner_less y x ≡ false) (t ∷ ts)) e (winner_less_irrefl t, s.0),
      )

  -- The ticket is one of the list, and none of the list comes before it.
  pub record IsLeast (ts : List PowTicket) (w : PowTicket) : Type 0 where
    pub among : Elem w ts
    pub least : (t : PowTicket) → Elem t ts → winner_less t w ≡ false

  -- SelectWinner returns a ticket only if every ticket passes Verify; it is then a ticket of the
  -- list with the least work hash, and of those with that hash the one with the least miner.
  pub select_winner-ok :
      (ts : List PowTicket) {w : PowTicket}
      → select_winner ts ≡ ok w
      → All IsVerified ts × IsLeast ts w
  unfolding select_winner
  select_winner-ok [] h = cc
  select_winner-ok (t ∷ ts) {w} h = elim (Result-cases (verify_all (t ∷ ts))) [
    | inr (e, bad) ↦ let k = rw (bad, select_winner) at h in cc
    | inl (u, good) ↦
        let first = rw (good, select_winner) at h in
        let (among, least) =
          first_of_sorted-ok (sort_slice winner_less (t ∷ ts))
            (sort_slice-IsSorted winner_less winner_order (t ∷ ts)) first in
        (
          verify_all-ok (t ∷ ts) good,
          record {
            among = Elem-of_sort_slice winner_less w (t ∷ ts) among;
            least = λ x m.
                All-Elem (λ y. winner_less y w ≡ false) (sort_slice winner_less (t ∷ ts)) least
                  (Elem-sort_slice winner_less x (t ∷ ts) m);
          },
        )
  ]

  first_of_sorted-total :
      (ts : List PowTicket)
      → ts ≢ []
      → (w : PowTicket) × (first_of_sorted (sort_slice winner_less ts) ≡ ok w)
  unfolding sort_slice insert_sorted
  first_of_sorted-total [] n = absurd (n refl)
  first_of_sorted-total (t ∷ ts) n =
      go (sort_slice winner_less (t ∷ ts)) (Elem-sort_slice winner_less t (t ∷ ts) (inl refl))
    where
      go : (xs : List PowTicket) → Elem t xs → (w : PowTicket) × (first_of_sorted xs ≡ ok w)
      go [] m = elim m [ ]
      go (x ∷ xs) m = (x, refl)

  select_winner_total :
      (ts : List PowTicket)
      → ts ≢ []
      → All IsVerified ts
      → (w : PowTicket) × (select_winner ts ≡ ok w)
  unfolding select_winner
  select_winner_total [] n h = absurd (n refl)
  select_winner_total (t ∷ ts) n h =
      let (w, first) = first_of_sorted-total (t ∷ ts) n in
      (w, rw (verify_all_complete (t ∷ ts) h, select_winner) first)

  -- The order in which tickets arrive does not matter: two lists with the same tickets, one for
  -- each miner, have the same winner.
  pub select_winner_same :
      (ts us : List PowTicket) {w : PowTicket}
      → distinct (miners ts) ≡ true
      → ((t : PowTicket) → Elem t ts ↔ Elem t us)
      → select_winner ts ≡ ok w
      → select_winner us ≡ ok w
  select_winner_same ts us {w} d e h =
      let (verified, best) = select_winner-ok ts h in
      let all : All IsVerified us =
        All-intro IsVerified us (λ a m. All-Elem IsVerified ts verified ((e a).1 m)) in
      let (v, won) = select_winner_total us (λ z. subst (Elem w) z ((e w).0 best.among)) all in
      let (_, other) = select_winner-ok us won in
      let same : v ≡ w = distinct-miners ts v w d ((e v).1 other.among) best.among (
        winner_less_total v w (best.least v ((e v).1 other.among))
          (other.least w ((e w).0 best.among))) in
      won ∙ ap ok same
