-- ===== src/AiPow/Mining.antt =====
-- The search loop of Mine (internal/aipow/dummy.go): what it finds, when it ends.
use ai_po_w_unified_dag.Prelude.{
  ℕ, zero, suc, ◌+◌, ◌-◌, ◌%◌, ◌^◌, ◌≤◌, ◌<◌, ◌≡◌, refl, sym, ◌∙◌, inl, inr, Bool, true, false,
  ◌&&◌, ◌||◌, none, some, Result, ok, err, arith, if◌then◌else◌, ltb, u64, ◌==◌, ◌/=◌, nat_eq,
  bytes_eq, eq_bytes_iff, Bool-cases, [], subst, ltb_false→le,
}
use native.Mathlib.Decide.{dec_lt}
use ai_po_w_unified_dag.Protocol.{PowTicket, Crypto}
use ai_po_w_unified_dag.AiPow.Difficulty.{meets_difficulty}
use ai_po_w_unified_dag.AiPow.Tickets.{
  Error, no_nonce, cancelled, calculate_work_hash, verify, attempt, mine_from, mine,
  work_hash_too_easy,
}

module _ ⦃c : Crypto⦄ where
  -- The hash leaves out the two fields that an attempt has written.
  attempt-attempt : (t : PowTicket) (m n : ℕ) → attempt (attempt t m) n ≡ attempt t n
  unfolding attempt calculate_work_hash
  attempt-attempt t m n = refl

  work_hash-attempt :
      (t : PowTicket) (n : ℕ) → calculate_work_hash (attempt t n) ≡ (attempt t n).work_hash
  unfolding attempt calculate_work_hash
  work_hash-attempt t n = refl

  difficulty-attempt : (t : PowTicket) (n : ℕ) → (attempt t n).difficulty ≡ t.difficulty
  unfolding attempt
  difficulty-attempt t n = refl

  nonce-attempt : (t : PowTicket) (n : ℕ) → (attempt t n).nonce ≡ n
  unfolding attempt
  nonce-attempt t n = refl

  -- The nonce solves the ticket's puzzle.
  abbrev pub solves : PowTicket → ℕ → Bool
  solves t n = meets_difficulty (attempt t n).work_hash t.difficulty

  -- What the loop returns when it starts at a nonce: the first solution from there on.
  pub record FirstSolution (t : PowTicket) (from max_nonce : ℕ) (w : PowTicket) : Type 0 where
    pub made : w ≡ attempt t w.nonce
    pub from_here : from ≤ w.nonce
    pub in_range : w.nonce ≤ max_nonce
    pub good_nonce : solves t w.nonce ≡ true
    pub first : (k : ℕ) → from ≤ k → k < w.nonce → solves t k ≡ false

  FirstSolution-here :
      (t : PowTicket) (n max_nonce : ℕ)
      → n ≤ max_nonce
      → solves t n ≡ true
      → FirstSolution t n max_nonce (attempt t n)
  unfolding attempt
  FirstSolution-here t n max_nonce h s = record {
    made = refl;
    from_here = omega arith;
    in_range = h;
    good_nonce = s;
    first = λ k a b. absurd (omega arith);
  }

  FirstSolution-later :
      (t : PowTicket) (n max_nonce : ℕ) (w : PowTicket)
      → solves t n ≡ false
      → FirstSolution t (n + 1) max_nonce w
      → FirstSolution t n max_nonce w
  FirstSolution-later t n max_nonce w s f = record {
    made = f.made;
    from_here = omega (arith, f.from_here);
    in_range = f.in_range;
    good_nonce = f.good_nonce;
    first = λ k a b. elim (dec_lt n k) [
      | yes past ↦ f.first k (omega arith) b
      | no here ↦ let e : k ≡ n = omega arith in rw e s
    ];
  }

  mine_from-attempt :
      (fuel : ℕ) (done : ℕ → Bool) (t : PowTicket) (k max_nonce n : ℕ)
      → mine_from fuel done (attempt t k) max_nonce n ≡ mine_from fuel done t max_nonce n
  unfolding mine_from attempt calculate_work_hash
  mine_from-attempt zero done t k max_nonce n = refl
  mine_from-attempt (suc fuel) done t k max_nonce n = refl

  -- One round, with the ticket as it was at the start.
  mine_from_step :
      (fuel : ℕ) (done : ℕ → Bool) (t : PowTicket) (max_nonce n : ℕ)
      → mine_from (suc fuel) done t max_nonce n ≡ (
          if ltb max_nonce n
          then some (err no_nonce)
          else if n % 1024 == 0 && done n
          then some (err cancelled)
          else if solves t n
          then some (ok (attempt t n))
          else mine_from fuel done t max_nonce (u64 (n + 1)))
  unfolding mine_from
  mine_from_step fuel done t max_nonce n =
      rw (mine_from-attempt fuel done t n max_nonce (u64 (n + 1)), difficulty-attempt t n)

  mine_from-FirstSolution :
      (fuel : ℕ) (done : ℕ → Bool) (t : PowTicket) (max_nonce n : ℕ) {w : PowTicket}
      → max_nonce < 2 ^ 64 - 1
      → mine_from fuel done t max_nonce n ≡ some (ok w)
      → FirstSolution t n max_nonce w
  unfolding mine_from
  mine_from-FirstSolution zero done t max_nonce n m h = cc
  mine_from-FirstSolution (suc fuel) done t max_nonce n {w} m h =
      let step = sym (mine_from_step fuel done t max_nonce n) ∙ h in
      elim (Bool-cases (ltb max_nonce n)) [
        | inl past ↦ let k = rw past at step in cc
        | inr within ↦ elim (Bool-cases (n % 1024 == 0 && done n)) [
          | inl stop ↦ let k = rw (within, stop) at step in cc
          | inr go ↦ elim (Bool-cases (solves t n)) [
            | inl solved ↦
                let found : attempt t n ≡ w = cc (rw (within, go, solved) at step) in
                subst (FirstSolution t n max_nonce) found
                  (FirstSolution-here t n max_nonce (ltb_false→le max_nonce n within) solved)
            | inr unsolved ↦
                let low : n ≤ max_nonce = ltb_false→le max_nonce n within in
                let fits : u64 (n + 1) ≡ n + 1 = omega arith in
                FirstSolution-later t n max_nonce w unsolved (
                  mine_from-FirstSolution fuel done t max_nonce (n + 1) m
                    (rw (within, go, unsolved, fits) at step))
          ]
        ]
      ]

  -- With fuel for every nonce left and one more round, the loop ends.
  mine_from_total :
      (fuel : ℕ) (done : ℕ → Bool) (t : PowTicket) (max_nonce n : ℕ)
      → max_nonce < 2 ^ 64 - 1
      → n ≤ max_nonce + 1
      → max_nonce + 2 ≤ fuel + n
      → (r : Result Error PowTicket) × (mine_from fuel done t max_nonce n ≡ some r)
  mine_from_total zero done t max_nonce n m low enough = absurd (omega arith)
  mine_from_total (suc fuel) done t max_nonce n m low enough =
      let step = mine_from_step fuel done t max_nonce n in
      elim (Bool-cases (ltb max_nonce n)) [
        | inl past ↦ (_, rw past at step)
        | inr within ↦ elim (Bool-cases (n % 1024 == 0 && done n)) [
          | inl stop ↦ (_, rw (within, stop) at step)
          | inr go ↦ elim (Bool-cases (solves t n)) [
            | inl solved ↦ (_, rw (within, go, solved) at step)
            | inr unsolved ↦
                let below : n ≤ max_nonce = ltb_false→le max_nonce n within in
                let fits : u64 (n + 1) ≡ n + 1 = omega arith in
                let (r, ends) =
                  mine_from_total fuel done t max_nonce (n + 1) m (omega arith) (omega arith) in
                (r, (rw (within, go, unsolved, fits) at step) ∙ ends)
          ]
        ]
      ]

  -- With the largest uint64 for the last nonce, the counter wraps and never passes it.
  mine_from_diverges :
      (fuel : ℕ) (done : ℕ → Bool) (t : PowTicket) (n : ℕ)
      → n < 2 ^ 64
      → ((k : ℕ) → done k ≡ false)
      → ((k : ℕ) → solves t k ≡ false)
      → mine_from fuel done t (2 ^ 64 - 1) n ≡ none
  unfolding mine_from
  mine_from_diverges zero done t n b quiet hard = refl
  mine_from_diverges (suc fuel) done t n b quiet hard =
      let within : ltb (2 ^ 64 - 1) n ≡ false = ground arith in
      let go : (n % 1024 == 0 && done n) ≡ false = ground (arith, quiet n) in
      mine_from_step fuel done t (2 ^ 64 - 1) n
      ∙ rw (within, go, hard n)
          (mine_from_diverges fuel done t (u64 (n + 1)) (omega arith) quiet hard)

  verify-attempt :
      (t : PowTicket) (n : ℕ)
      → verify (attempt t n) ≡ (if solves t n then ok tt else err work_hash_too_easy)
  unfolding verify
  verify-attempt t n =
      let own : (calculate_work_hash (attempt t n) /= (attempt t n).work_hash) ≡ false = ground (
        arith,
        work_hash-attempt t n,
        eq_bytes_iff (calculate_work_hash (attempt t n)) (attempt t n).work_hash,
      ) in
      rw (own, difficulty-attempt t n)

  -- A challenge that Mine does not refuse at once.
  abbrev pub IsChallenge : PowTicket → Type 0
  IsChallenge t =
      ((t.height == 0 || t.parent_hash == [] || t.job_id == [] || t.miner_id == []) ≡ false)
      × (t.difficulty < 256)

  mine-mine_from :
      (fuel : ℕ) (done : ℕ → Bool) (t : PowTicket) (max_nonce : ℕ)
      → IsChallenge t
      → mine fuel done t max_nonce ≡ mine_from fuel done t max_nonce 0
  unfolding mine
  mine-mine_from fuel done t max_nonce (complete, d) = rw (complete, mine) (ground arith)

  -- The ticket that Mine returns for a challenge that it does not refuse at once, with a last
  -- nonce below the largest uint64, is the challenge with a nonce and the hash for it: it passes
  -- Verify, its nonce is in the range, and no smaller nonce solves the puzzle.
  pub mine_finds_first :
      (fuel : ℕ) (done : ℕ → Bool) (t : PowTicket) (max_nonce : ℕ) {w : PowTicket}
      → max_nonce < 2 ^ 64 - 1
      → IsChallenge t
      → mine fuel done t max_nonce ≡ some (ok w)
      → (verify w ≡ ok tt)
        × (w ≡ attempt t w.nonce)
        × (w.nonce ≤ max_nonce)
        × ((k : ℕ) → k < w.nonce → verify (attempt t k) ≡ err work_hash_too_easy)
  mine_finds_first fuel done t max_nonce {w} m good h =
      let f =
        mine_from-FirstSolution fuel done t max_nonce 0 m
          (sym (mine-mine_from fuel done t max_nonce good) ∙ h) in
      (
        subst (λ x. verify x ≡ ok tt) (sym f.made) (verify-attempt t w.nonce ∙ rw f.good_nonce),
        f.made,
        f.in_range,
        λ k b. verify-attempt t k ∙ rw (f.first k (omega arith) b),
      )

  -- Mine ends, for a challenge that it does not refuse at once: with a last nonce below the
  -- largest uint64, a round for each nonce and one more are enough, whether it finds a ticket, is
  -- cancelled or gives up.
  pub mine_total :
      (done : ℕ → Bool) (t : PowTicket) (max_nonce : ℕ)
      → max_nonce < 2 ^ 64 - 1
      → IsChallenge t
      → (r : Result Error PowTicket) × (mine (max_nonce + 2) done t max_nonce ≡ some r)
  mine_total done t max_nonce m good =
      let (r, ends) =
        mine_from_total (max_nonce + 2) done t max_nonce 0 m (omega arith) (omega arith) in
      (r, mine-mine_from (max_nonce + 2) done t max_nonce good ∙ ends)

  -- For a challenge that Mine does not refuse at once, if no nonce solves the puzzle and nobody
  -- cancels, Mine with the largest uint64 for the last nonce runs out of any fuel: the counter
  -- wraps to zero and the loop does not end.
  pub mine_diverges :
      (fuel : ℕ) (done : ℕ → Bool) (t : PowTicket)
      → IsChallenge t
      → ((k : ℕ) → done k ≡ false)
      → ((k : ℕ) → solves t k ≡ false)
      → mine fuel done t (2 ^ 64 - 1) ≡ none
  mine_diverges fuel done t good quiet hard =
      mine-mine_from fuel done t (2 ^ 64 - 1) good
      ∙ mine_from_diverges fuel done t 0 (omega arith) quiet hard
