-- ===== src/AiPow/Tickets.antt =====
-- internal/aipow/dummy.go: Mine, CalculateWorkHash, Verify and SelectWinner. Cancellation of the
-- context is a test of the nonces at which the loop looks at it.
use ai_po_w_unified_dag.Prelude.{
  ℕ, zero, suc, ◌+◌, ◌%◌, List, [], ◌∷◌, Bool, ◌&&◌, ◌||◌, Option, none, some, Bytes, Result, ok,
  err, if◌then◌else◌, ltb, codes, u64, sort_slice, lt_bytes, ◌==◌, ◌/=◌, nat_eq, bytes_eq,
}
use ai_po_w_unified_dag.Protocol.{PowTicket, Crypto, hash_json}
use ai_po_w_unified_dag.Protocol.Primitives.{work_fields}
use ai_po_w_unified_dag.AiPow.Difficulty.{meets_difficulty}

pub data Error : Type 0 where
  incomplete_challenge difficulty_too_large cancelled no_nonce : Error
  work_hash_mismatch work_hash_too_easy no_tickets : Error
  invalid_ticket : (miner_id : Bytes) → Error → Error

unfoldable pub winner_less : PowTicket → PowTicket → Bool
winner_less a b =
    if a.work_hash == b.work_hash
    then lt_bytes a.miner_id b.miner_id
    else lt_bytes a.work_hash b.work_hash

abbrev pub first_of_sorted : List PowTicket → Result Error PowTicket
first_of_sorted [] = err no_tickets
first_of_sorted (t ∷ ts) = ok t

module _ ⦃c : Crypto⦄ where
  unfoldable pub calculate_work_hash : PowTicket → Bytes
  calculate_work_hash t =
      hash_json
        (work_fields (codes "AIDCHAIN_AI_POW_V1") (record t { work_hash = []; signature = [] }))

  unfoldable pub verify : PowTicket → Result Error (Unit {0})
  verify t =
      if calculate_work_hash t /= t.work_hash
      then err work_hash_mismatch
      else if meets_difficulty t.work_hash t.difficulty
      then ok tt
      else err work_hash_too_easy

  -- `ticket.Nonce = nonce; ticket.WorkHash = CalculateWorkHash(ticket)`
  unfoldable pub attempt : PowTicket → ℕ → PowTicket
  attempt t nonce =
      let t' = record t { nonce = nonce } in record t' { work_hash = calculate_work_hash t' }

  -- The loop of Mine, on fuel: `none` is out of fuel.
  unfoldable pub mine_from : ℕ → (ℕ → Bool) → PowTicket → ℕ → ℕ → Option (Result Error PowTicket)
  mine_from zero done t max_nonce nonce = none
  mine_from (suc fuel) done t max_nonce nonce =
      let t' = attempt t nonce in
      let rest = mine_from fuel done t' max_nonce (u64 (nonce + 1)) in
      if ltb max_nonce nonce
      then some (err no_nonce)
      else if nonce % 1024 == 0 && done nonce
      then some (err cancelled)
      else if meets_difficulty t'.work_hash t'.difficulty
      then some (ok t')
      else rest

  unfoldable pub mine : ℕ → (ℕ → Bool) → PowTicket → ℕ → Option (Result Error PowTicket)
  mine fuel done t max_nonce =
      if t.height == 0 || t.parent_hash == [] || t.job_id == [] || t.miner_id == []
      then some (err incomplete_challenge)
      else if ltb 255 t.difficulty
      then some (err difficulty_too_large)
      else mine_from fuel done t max_nonce 0

  -- The loop of SelectWinner that verifies each ticket.
  unfoldable pub verify_all : List PowTicket → Result Error (Unit {0})
  verify_all [] = ok tt
  verify_all (t ∷ ts) =
      let rest = verify_all ts in
      elim (verify t) [ err e ↦ err (invalid_ticket t.miner_id e) | ok _ ↦ rest ]

  unfoldable pub select_winner : List PowTicket → Result Error PowTicket
  select_winner [] = err no_tickets
  select_winner (t ∷ ts) = elim (verify_all (t ∷ ts)) [
    | err e ↦ err e
    | ok _ ↦ first_of_sorted (sort_slice winner_less (t ∷ ts))
  ]
