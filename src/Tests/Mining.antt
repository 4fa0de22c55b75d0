-- ===== src/Tests/Mining.antt =====
-- Tickets that share one work hash (internal/aipow/dummy.go).
use ai_po_w_unified_dag.AiPow.Bits.{be_value, meets_difficulty-hash}
use ai_po_w_unified_dag.Protocol.{hash_json, PowTicket, hash_bytes}
use ai_po_w_unified_dag.AiPow.Mining.{
  IsChallenge, mine_total, mine_finds_first, mine_diverges, solves,
}
use ai_po_w_unified_dag.AiPow.Winner.{
  IsVerified, IsLeast, select_winner_same, miners, select_winner-ok,
}
use ai_po_w_unified_dag.Go.Hex.{encode_to_string, decode_string, from_hex_char}
use ai_po_w_unified_dag.AiPow.Difficulty.{meets_difficulty, strip_0x, leading_zeros}
use ai_po_w_unified_dag.AiPow.Tickets.{
  mine, attempt, verify, select_winner, Error, calculate_work_hash, mine_from, verify_all,
  work_hash_too_easy, winner_less,
}
use ai_po_w_unified_dag.Tests.Demo.{demo, demo_ticket}
use ai_po_w_unified_dag.Prelude.{
  ◌≡◌, refl, Bytes, ok, All, eq_bytes, ◌∷◌, distinct, Result, ◌<◌, contains, [], ◌≤◌, false, arith,
  ◌^◌, ℕ, replicate, err, true, ltb, ◌-◌, Elem, sort_slice, bytes_eq, none, some, ◌↔◌,
  insert_sorted, lt_bytes, inl, ◌*◌, inr,
}

abbrev demo_work : Bytes
demo_work = 48 ∷ 120 ∷ encode_to_string (replicate 32 128)

-- A ticket that meets a difficulty of 0 bits.
abbrev easy : Bytes → PowTicket
easy miner = record demo_ticket { miner_id = miner; work_hash = demo_work }

select_winner_demo : select_winner (easy (98 ∷ []) ∷ easy (97 ∷ []) ∷ []) ≡ ok (easy (97 ∷ []))
unfolding select_winner verify_all verify calculate_work_hash hash_json hash_bytes sort_slice
    insert_sorted winner_less eq_bytes lt_bytes meets_difficulty strip_0x decode_string
    from_hex_char encode_to_string leading_zeros
select_winner_demo = refl

select_winner-ok_example :
    All IsVerified (easy (98 ∷ []) ∷ easy (97 ∷ []) ∷ [])
    × IsLeast (easy (98 ∷ []) ∷ easy (97 ∷ []) ∷ []) (easy (97 ∷ []))
select_winner-ok_example =
    select_winner-ok (easy (98 ∷ []) ∷ easy (97 ∷ []) ∷ []) select_winner_demo

swapped :
    (t : PowTicket)
    → Elem t (easy (98 ∷ []) ∷ easy (97 ∷ []) ∷ []) ↔ Elem t (easy (97 ∷ []) ∷ easy (98 ∷ []) ∷ [])
swapped t = (
  λ h. elim h [ inl e ↦ inr (inl e) | inr (inl e) ↦ inl e | inr (inr n) ↦ inr (inr n) ],
  λ h. elim h [ inl e ↦ inr (inl e) | inr (inl e) ↦ inl e | inr (inr n) ↦ inr (inr n) ],
)

two_miners : distinct (miners (easy (98 ∷ []) ∷ easy (97 ∷ []) ∷ [])) ≡ true
unfolding distinct contains eq_bytes
two_miners = refl

select_winner_same_example :
    select_winner (easy (97 ∷ []) ∷ easy (98 ∷ []) ∷ []) ≡ ok (easy (97 ∷ []))
select_winner_same_example =
    select_winner_same (easy (98 ∷ []) ∷ easy (97 ∷ []) ∷ []) (easy (97 ∷ []) ∷ easy (98 ∷ []) ∷ [])
      two_miners swapped select_winner_demo

bytes_demo : All (λ v. v < 256) (replicate 32 7)
bytes_demo = ground arith

meets_difficulty-hash_example :
    meets_difficulty (48 ∷ 120 ∷ encode_to_string (replicate 32 7)) 5
    ≡ ltb (be_value (replicate 32 7) * 2 ^ 5) (2 ^ 256)
meets_difficulty-hash_example =
    meets_difficulty-hash (replicate 32 7) 5 bytes_demo refl (omega arith)

challenge : IsChallenge demo_ticket
unfolding eq_bytes
challenge = (refl, omega arith)

mine_demo : mine 3 (λ n. false) demo_ticket 5 ≡ some (ok (attempt demo_ticket 0))
unfolding mine mine_from attempt eq_bytes calculate_work_hash hash_json hash_bytes meets_difficulty
    strip_0x decode_string from_hex_char encode_to_string leading_zeros
mine_demo = refl

mine_finds_first_example :
    (verify (attempt demo_ticket 0) ≡ ok tt)
    × (attempt demo_ticket 0 ≡ attempt demo_ticket (attempt demo_ticket 0).nonce)
    × ((attempt demo_ticket 0).nonce ≤ 5)
    × ((k : ℕ)
        → k < (attempt demo_ticket 0).nonce
        → verify (attempt demo_ticket k) ≡ err work_hash_too_easy)
mine_finds_first_example =
    mine_finds_first 3 (λ n. false) demo_ticket 5 (omega arith) challenge mine_demo

mine_total_example : (r : Result Error PowTicket) × (mine 7 (λ n. false) demo_ticket 5 ≡ some r)
mine_total_example = mine_total (λ n. false) demo_ticket 5 (omega arith) challenge

abbrev hard_ticket : PowTicket
hard_ticket = record demo_ticket { difficulty = 8 }

hard-IsChallenge : IsChallenge hard_ticket
unfolding eq_bytes
hard-IsChallenge = (refl, omega arith)

never : (k : ℕ) → solves hard_ticket k ≡ false
unfolding attempt calculate_work_hash hash_json hash_bytes meets_difficulty strip_0x decode_string
    from_hex_char encode_to_string leading_zeros
never k = refl

mine_diverges_example : mine 10 (λ n. false) hard_ticket (2 ^ 64 - 1) ≡ none
mine_diverges_example = mine_diverges 10 (λ n. false) hard_ticket hard-IsChallenge (λ k. refl) never
