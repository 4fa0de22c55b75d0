-- ===== src/HotStuff/Unmoved.antt =====
-- The calls of a replica that leave its finalized chain alone (internal/hotstuff/hotstuff.go).
use ai_po_w_unified_dag.Prelude.{
  ℕ, ◌≡◌, refl, inl, inr, [], ◌&&◌, Bytes, Result, ok, err, ◌/=◌, bytes_eq, nat_eq, Bool-cases,
  Option-cases,
}
use ai_po_w_unified_dag.Protocol.{Phase, prepare, Vote, Block, Crypto, block_hash}
use ai_po_w_unified_dag.HotStuff.Errors.{Error}
use ai_po_w_unified_dag.HotStuff.Replica.{
  Replica, vote_locked, validate_block_locked, breaks_lock, keep_pending, reply_vote, on_proposal,
  voted_at,
}

module _ ⦃c : Crypto⦄ where
  -- A call that leaves these four fields alone.
  pub record SameChain (r t : Replica) : Type 0 where
    pub validators : t.validators ≡ r.validators
    pub blocks : t.blocks ≡ r.blocks
    pub height : t.height ≡ r.height
    pub tip_hash : t.tip_hash ≡ r.tip_hash

  pub same : (r : Replica) → SameChain r r
  same r = record { validators = refl; blocks = refl; height = refl; tip_hash = refl }

  -- Voting leaves the chain alone, also after the block was noted or the lock was taken.
  pub vote_locked-SameChain :
      (r t : Replica) (p : Phase) (h : ℕ) (hash : Bytes)
      → SameChain r t
      → SameChain r (vote_locked t p h hash).0
  unfolding vote_locked
  vote_locked-SameChain r t p h hash k =
      elim (Bool-cases (voted_at t.voted h p /= [] && voted_at t.voted h p /= hash)) [
        | inl clash ↦ rw clash k
        | inr free ↦ rw free (record {
          validators = k.validators;
          blocks = k.blocks;
          height = k.height;
          tip_hash = k.tip_hash;
        })
      ]

  pub keep_pending-SameChain : (r : Replica) (b : Block) → SameChain r (keep_pending r b)
  keep_pending-SameChain r b = record {
    validators = refl;
    blocks = refl;
    height = refl;
    tip_hash = refl;
  }

  pub lock-SameChain :
      (r : Replica) (h : ℕ) (hash : Bytes)
      → SameChain r (record r { locked_height = h; locked_hash = hash })
  lock-SameChain r h hash = record {
    validators = refl;
    blocks = refl;
    height = refl;
    tip_hash = refl;
  }

  pub reply_vote-SameChain :
      (r : Replica) (x : Replica × Result Error Vote)
      → SameChain r x.0
      → SameChain r (reply_vote x).0
  reply_vote-SameChain r (t, ok v) h = h
  reply_vote-SameChain r (t, err e) h = h

  pub on_proposal-SameChain : (r : Replica) (b : Block) → SameChain r (on_proposal r b).0
  unfolding on_proposal
  on_proposal-SameChain r b = elim (Option-cases (validate_block_locked r b)) [
    | inr (e, bad) ↦ rw (bad, on_proposal) (same r)
    | inl good ↦ elim (Bool-cases (breaks_lock r b)) [
      | inl locked ↦ rw (good, on_proposal, locked) (same r)
      | inr free ↦
          rw (good, on_proposal, free)
            (vote_locked-SameChain r (keep_pending r b) prepare b.header.height (block_hash b)
              (keep_pending-SameChain r b))
    ]
  ]
