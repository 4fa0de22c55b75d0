-- ===== src/HotStuff/Voting.antt =====
-- A replica never votes for two blocks in one phase at one height (voteLocked of
-- internal/hotstuff/hotstuff.go).
use ai_po_w_unified_dag.HotStuff.Validators.{verify_qc}
use ai_po_w_unified_dag.Prelude.{
  ℕ, ◌≡◌, refl, sym, ◌∙◌, ◌≢◌, inl, inr, List, [], ◌∷◌, ◌&&◌, Bytes, Result, ok, err, arith,
  if◌then◌else◌, insert, lookup-insert, All, ◌==◌, ◌/=◌, bytes_eq, nat_eq, eq_bytes_iff, Bool-cases,
  ◌++◌, true, Option-cases, u64, ◌+◌, ◌||◌,
}
use ai_po_w_unified_dag.Protocol.{
  Phase, phase_eq, phase_beq_iff, Vote, Crypto, Block, precommit, QuorumCertificate, block_hash,
  block_hash-ne-nil, commit, other, prepare,
}
use ai_po_w_unified_dag.Prelude.Results.{Result-cases}
use ai_po_w_unified_dag.HotStuff.Errors.{Error}
use ai_po_w_unified_dag.HotStuff.Replica.{
  Replica, phases_at, voted_at, sign_vote, vote_locked, reply_vote, on_proposal, on_phase, on_qc,
  on_commit, validate_block_locked, breaks_lock, keep_pending,
}
use ai_po_w_unified_dag.HotStuff.History.{
  vote_of, reply_votes, run, has_cast, deliver, Input, Message, with_validator, proposal, certified,
}

abbrev Ballots : Type 0
Ballots = List (ℕ × List (Phase × Bytes))

-- Writing one entry of the map of maps changes that entry alone.
voted_at-insert :
    (voted : Ballots) (h k : ℕ) (p q : Phase) (hash : Bytes)
    → voted_at (insert h (insert p hash (phases_at voted h)) voted) k q
      ≡ (if (h == k) && (p == q) then hash else voted_at voted k q)
unfolding voted_at phases_at
voted_at-insert voted h k p q hash = ground (
  arith,
  lookup-insert h k (insert p hash (phases_at voted h)) voted,
  lookup-insert p q hash (phases_at voted h),
  phase_beq_iff p q,
)

-- Entries that are set stay as they are.
abbrev Keeps : Ballots → Ballots → Type 0
Keeps before after =
    (k : ℕ) (q : Phase) → voted_at before k q ≢ [] → voted_at after k q ≡ voted_at before k q

Keeps-refl : (b : Ballots) → Keeps b b
Keeps-refl b k q h = refl

-- The votes are those on record, and none is for the empty hash.
abbrev OnRecord : Ballots → Vote → Type 0
OnRecord voted v = (voted_at voted v.height v.phase ≡ v.block_hash) × (v.block_hash ≢ [])

OnRecord-Keeps :
    (before after : Ballots) (vs : List Vote)
    → Keeps before after
    → All (OnRecord before) vs
    → All (OnRecord after) vs
OnRecord-Keeps before after [] k h = tt
OnRecord-Keeps before after (v ∷ vs) k ((e, n), h) =
    ((k v.height v.phase (λ z. n (sym e ∙ z)) ∙ e, n), OnRecord-Keeps before after vs k h)

-- What one call does to the ballots, and what it casts.
record Casts (before after : Ballots) (cast : List Vote) : Type 0 where
  keeps : Keeps before after
  recorded : All (OnRecord after) cast

Casts-none : (b : Ballots) → Casts b b []
Casts-none b = record { keeps = Keeps-refl b; recorded = tt }

module _ ⦃c : Crypto⦄ where
  vote_locked-Casts :
      (r : Replica) (p : Phase) (h : ℕ) (hash : Bytes)
      → hash ≢ []
      → Casts r.voted (vote_locked r p h hash).0.voted (vote_of (vote_locked r p h hash).1)
  unfolding vote_locked sign_vote
  vote_locked-Casts r p h hash n =
      elim (Bool-cases (voted_at r.voted h p /= [] && voted_at r.voted h p /= hash)) [
        | inl clash ↦ rw clash (Casts-none r.voted)
        | inr free ↦ rw free (record {
          keeps = λ k q set. ground (
            arith,
            voted_at-insert r.voted h k p q hash,
            eq_bytes_iff (voted_at r.voted h p) [],
            eq_bytes_iff (voted_at r.voted h p) hash,
            phase_beq_iff p q,
          );
          recorded =
              ((ground (arith, voted_at-insert r.voted h h p p hash, phase_beq_iff p p), n), tt);
        })
      ]

  reply_vote-Casts :
      (b : Ballots) (x : Replica × Result Error Vote)
      → Casts b x.0.voted (vote_of x.1)
      → Casts b (reply_vote x).0.voted (reply_votes (reply_vote x).1)
  reply_vote-Casts b (r, ok v) h = h
  reply_vote-Casts b (r, err e) h = h

  on_proposal-Casts :
      (r : Replica) (b : Block)
      → Casts r.voted (on_proposal r b).0.voted (vote_of (on_proposal r b).1)
  unfolding on_proposal
  on_proposal-Casts r b = elim (Option-cases (validate_block_locked r b)) [
    | inr (e, bad) ↦ rw (bad, on_proposal) (Casts-none r.voted)
    | inl good ↦ elim (Bool-cases (breaks_lock r b)) [
      | inl locked ↦ rw (good, on_proposal, locked) (Casts-none r.voted)
      | inr free ↦
          rw (good, on_proposal, free)
            (vote_locked-Casts (keep_pending r b) prepare b.header.height (block_hash b)
              (block_hash-ne-nil b))
    ]
  ]

  on_commit-Casts :
      (r : Replica) (b : Block)
      → Casts r.voted (on_commit r b).0.voted (reply_votes (on_commit r b).1)
  unfolding on_commit
  on_commit-Casts r b =
      elim (Bool-cases (r.height == b.header.height && r.tip_hash == block_hash b)) [
        | inl same ↦ rw same (Casts-none r.voted)
        | inr new ↦
            elim (Bool-cases
              (b.header.height /= u64 (r.height + 1) || b.header.parent_hash /= r.tip_hash)) [
                | inl bad ↦ rw (new, bad) (Casts-none r.voted)
                | inr good ↦ rw (new, good) (Casts-none r.voted)
              ]
      ]

  on_phase-Casts :
      (r : Replica) (b : Block) (p : Phase) (h : ℕ)
      → Casts r.voted (on_phase r b p h).0.voted (reply_votes (on_phase r b p h).1)
  unfolding on_phase
  on_phase-Casts r b prepare h =
      reply_vote-Casts r.voted (vote_locked r precommit h (block_hash b))
        (vote_locked-Casts r precommit h (block_hash b) (block_hash-ne-nil b))
  on_phase-Casts r b precommit h =
      let s = record r { locked_height = h; locked_hash = block_hash b } in
      reply_vote-Casts r.voted (vote_locked s commit h (block_hash b))
        (vote_locked-Casts s commit h (block_hash b) (block_hash-ne-nil b))
  on_phase-Casts r b commit h = on_commit-Casts r b
  on_phase-Casts r b (other text) h = Casts-none r.voted

  on_qc-Casts :
      (r : Replica) (b : Block) (qc : QuorumCertificate)
      → Casts r.voted (on_qc r b qc).0.voted (reply_votes (on_qc r b qc).1)
  unfolding on_qc
  on_qc-Casts r b qc = elim (Result-cases (verify_qc r.validators qc)) [
    | inr (e, bad) ↦ rw (bad, on_qc) (Casts-none r.voted)
    | inl (u, valid) ↦
        elim (Bool-cases (qc.block_hash /= block_hash b || qc.height /= b.header.height)) [
          | inl off ↦ rw (valid, on_qc, off) (Casts-none r.voted)
          | inr on ↦ elim (Option-cases (validate_block_locked r b)) [
            | inr (e, bad) ↦ rw (valid, on_qc, on, bad) (Casts-none r.voted)
            | inl good ↦
                rw (valid, on_qc, on, good) (on_phase-Casts (keep_pending r b) b qc.phase qc.height)
          ]
        ]
  ]

  deliver-Casts : (r : Replica) (m : Message) → Casts r.voted (deliver r m).0.voted (deliver r m).1
  unfolding deliver
  deliver-Casts r (proposal b) = on_proposal-Casts r b
  deliver-Casts r (certified b qc) = on_qc-Casts r b qc

  All-append : (P : Vote → Type 0) (xs ys : List Vote) → All P xs → All P ys → All P (xs ++ ys)
  All-append P [] ys hx hy = hy
  All-append P (x ∷ xs) ys hx hy = (hx.0, All-append P xs ys hx.1 hy)

  run-Casts :
      (r : Replica) (inputs : List Input) → Casts r.voted (run r inputs).0.voted (run r inputs).1
  unfolding run
  run-Casts r [] = Casts-none r.voted
  run-Casts r (input ∷ inputs) =
      let first = deliver-Casts (with_validator r input.validate) input.message in
      let s = deliver (with_validator r input.validate) input.message in
      let rest = run-Casts s.0 inputs in
      record {
        keeps = λ k q set.
            rest.keeps k q (λ e. set (sym (first.keeps k q set) ∙ e)) ∙ first.keeps k q set;
        recorded =
            All-append (OnRecord (run s.0 inputs).0.voted) s.1 (run s.0 inputs).1
              (OnRecord-Keeps s.0.voted (run s.0 inputs).0.voted s.1 rest.keeps first.recorded)
              rest.recorded;
      }

  has_cast-OnRecord :
      (voted : Ballots) (vs : List Vote) (p : Phase) (h : ℕ) (hash : Bytes)
      → All (OnRecord voted) vs
      → has_cast vs p h hash ≡ true
      → voted_at voted h p ≡ hash
  unfolding has_cast
  has_cast-OnRecord voted [] p h hash a k = cc
  has_cast-OnRecord voted (v ∷ vs) p h hash ((e, n), a) k = ground (
    arith,
    has_cast-OnRecord voted vs p h hash a,
    phase_beq_iff v.phase p,
    eq_bytes_iff v.block_hash hash,
  )

  -- Whatever messages reach a replica, in whatever order, two votes that it casts in one phase at
  -- one height are for the same block.
  pub no_double_vote :
      (r : Replica) (inputs : List Input) (phase : Phase) (height : ℕ) (a b : Bytes)
      → has_cast (run r inputs).1 phase height a ≡ true
      → has_cast (run r inputs).1 phase height b ≡ true
      → a ≡ b
  no_double_vote r inputs phase height a b ha hb =
      let all = (run-Casts r inputs).recorded in
      sym (has_cast-OnRecord (run r inputs).0.voted (run r inputs).1 phase height a all ha)
      ∙ has_cast-OnRecord (run r inputs).0.voted (run r inputs).1 phase height b all hb
