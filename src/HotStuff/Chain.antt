-- ===== src/HotStuff/Chain.antt =====
-- The finalized chain of a replica (internal/hotstuff/hotstuff.go).
use ai_po_w_unified_dag.Prelude.{
  ℕ, ◌+◌, ◌≡◌, refl, sym, ap, subst, ◌∙◌, inl, inr, List, [], ◌∷◌, ◌++◌, ◌&&◌, ◌||◌, Option, Bytes,
  ok, arith, u64, ◌==◌, ◌/=◌, bytes_eq, nat_eq, eq_bytes_iff, nat_beq_iff, Bool-cases, Option-cases,
  Elem, Elem-append_left, Elem-append_right,
}
use ai_po_w_unified_dag.Prelude.Results.{Result-cases}
use ai_po_w_unified_dag.Protocol.{
  Phase, prepare, precommit, commit, other, QuorumCertificate, Block, Crypto, block_hash,
  genesis_hash,
}
use ai_po_w_unified_dag.HotStuff.Validators.{ValidatorSet, verify_qc}
use ai_po_w_unified_dag.HotStuff.Replica.{
  Replica, BlockValidator, new_replica, vote_locked, validate_block_locked, keep_pending,
  on_proposal, on_commit, on_phase, on_qc,
}
use ai_po_w_unified_dag.HotStuff.History.{
  Message, proposal, Input, with_validator, deliver, run, certified,
}
use ai_po_w_unified_dag.HotStuff.Unmoved.{
  SameChain, same, vote_locked-SameChain, keep_pending-SameChain, lock-SameChain,
  reply_vote-SameChain, on_proposal-SameChain,
}

module _ ⦃c : Crypto⦄ where
  -- A commit certificate for the block, one of those seen, which VerifyQC accepts.
  pub record IsFinal (seen : List QuorumCertificate) (s : ValidatorSet) (b : Block) : Type 0 where
    pub qc : QuorumCertificate
    pub among : Elem qc seen
    pub accepted : verify_qc s qc ≡ ok tt
    pub commits : qc.phase ≡ commit
    pub at_height : qc.height ≡ b.header.height
    pub names : qc.block_hash ≡ block_hash b

  -- Blocks that follow one another from a height and a hash, each of them final.
  abbrev pub IsChain : List QuorumCertificate → ValidatorSet → ℕ → Bytes → List Block → Type 0
  IsChain seen s height hash [] = Unit
  IsChain seen s height hash (b ∷ bs) =
      (b.header.height ≡ u64 (height + 1))
      × (b.header.parent_hash ≡ hash)
      × IsFinal seen s b
      × IsChain seen s b.header.height (block_hash b) bs

  abbrev pub last_height : ℕ → List Block → ℕ
  last_height height [] = height
  last_height height (b ∷ bs) = last_height b.header.height bs

  abbrev pub last_hash : Bytes → List Block → Bytes
  last_hash hash [] = hash
  last_hash hash (b ∷ bs) = last_hash (block_hash b) bs

  IsChain-snoc :
      (seen : List QuorumCertificate) (s : ValidatorSet) (height : ℕ) (hash : Bytes)
      (bs : List Block) (b : Block)
      → IsChain seen s height hash bs
      → b.header.height ≡ u64 (last_height height bs + 1)
      → b.header.parent_hash ≡ last_hash hash bs
      → IsFinal seen s b
      → IsChain seen s height hash (bs ++ b ∷ [])
  IsChain-snoc seen s height hash [] b k h p f = (h, p, f, tt)
  IsChain-snoc seen s height hash (a ∷ bs) b (ha, pa, fa, k) h p f =
      (ha, pa, fa, IsChain-snoc seen s a.header.height (block_hash a) bs b k h p f)

  last_height-snoc :
      (height : ℕ) (bs : List Block) (b : Block)
      → last_height height (bs ++ b ∷ []) ≡ b.header.height
  last_height-snoc height [] b = refl
  last_height-snoc height (a ∷ bs) b = last_height-snoc a.header.height bs b

  last_hash-snoc :
      (hash : Bytes) (bs : List Block) (b : Block) → last_hash hash (bs ++ b ∷ []) ≡ block_hash b
  last_hash-snoc hash [] b = refl
  last_hash-snoc hash (a ∷ bs) b = last_hash-snoc (block_hash a) bs b

  -- The replica's blocks are a chain of final blocks from genesis, and end at its height and tip.
  pub record HasChain (seen : List QuorumCertificate) (s : ValidatorSet) (r : Replica)
      : Type 0 where
    pub set : r.validators ≡ s
    pub chain : IsChain seen s 0 genesis_hash r.blocks
    pub height_is : r.height ≡ last_height 0 r.blocks
    pub tip_is : r.tip_hash ≡ last_hash genesis_hash r.blocks

  SameChain-HasChain :
      (seen : List QuorumCertificate) (s : ValidatorSet) (r t : Replica)
      → SameChain r t
      → HasChain seen s r
      → HasChain seen s t
  SameChain-HasChain seen s r t k h = record {
    set = k.validators ∙ h.set;
    chain = subst (IsChain seen s 0 genesis_hash) (sym k.blocks) h.chain;
    height_is = k.height ∙ (h.height_is ∙ ap (last_height 0) (sym k.blocks));
    tip_is = k.tip_hash ∙ (h.tip_is ∙ ap (last_hash genesis_hash) (sym k.blocks));
  }

  on_commit-HasChain :
      (seen : List QuorumCertificate) (s : ValidatorSet) (r : Replica) (b : Block)
      → IsFinal seen s b
      → HasChain seen s r
      → HasChain seen s (on_commit r b).0
  unfolding on_commit
  on_commit-HasChain seen s r b f h =
      elim (Bool-cases (r.height == b.header.height && r.tip_hash == block_hash b)) [
        | inl old ↦ rw old h
        | inr new ↦
            elim (Bool-cases
              (b.header.height /= u64 (r.height + 1) || b.header.parent_hash /= r.tip_hash)) [
                | inl bad ↦ rw (new, bad) h
                | inr good ↦
                    rw (new, good)
                      (record {
                        set = h.set;
                        chain =
                            IsChain-snoc seen s 0 genesis_hash r.blocks b h.chain
                              (ground (arith, h.height_is))
                              (ground
                                (arith, h.tip_is, eq_bytes_iff b.header.parent_hash r.tip_hash))
                              f;
                        height_is = sym (last_height-snoc 0 r.blocks b);
                        tip_is = sym (last_hash-snoc genesis_hash r.blocks b);
                      })
              ]
      ]

  on_phase-HasChain :
      (seen : List QuorumCertificate) (s : ValidatorSet) (r : Replica) (b : Block) (p : Phase)
      (h : ℕ)
      → (p ≡ commit → IsFinal seen s b)
      → HasChain seen s r
      → HasChain seen s (on_phase r b p h).0
  unfolding on_phase
  on_phase-HasChain seen s r b prepare h f k =
      SameChain-HasChain seen s r _
        (reply_vote-SameChain r (vote_locked r precommit h (block_hash b))
          (vote_locked-SameChain r r precommit h (block_hash b) (same r)))
        k
  on_phase-HasChain seen s r b precommit h f k =
      let t = record r { locked_height = h; locked_hash = block_hash b } in
      SameChain-HasChain seen s r _
        (reply_vote-SameChain r (vote_locked t commit h (block_hash b))
          (vote_locked-SameChain r t commit h (block_hash b) (lock-SameChain r h (block_hash b))))
        k
  on_phase-HasChain seen s r b commit h f k = on_commit-HasChain seen s r b (f refl) k
  on_phase-HasChain seen s r b (other text) h f k = k

  on_qc-HasChain :
      (seen : List QuorumCertificate) (s : ValidatorSet) (r : Replica) (b : Block)
      (qc : QuorumCertificate)
      → Elem qc seen
      → HasChain seen s r
      → HasChain seen s (on_qc r b qc).0
  unfolding on_qc
  on_qc-HasChain seen s r b qc m k = elim (Result-cases (verify_qc r.validators qc)) [
    | inr (e, bad) ↦ rw (bad, on_qc) k
    | inl (u, valid) ↦
        elim (Bool-cases (qc.block_hash /= block_hash b || qc.height /= b.header.height)) [
          | inl off ↦ rw (valid, on_qc, off) k
          | inr on ↦ elim (Option-cases (validate_block_locked r b)) [
            | inr (e, bad) ↦ rw (valid, on_qc, on, bad) k
            | inl good ↦
                rw (valid, on_qc, on, good)
                  (on_phase-HasChain seen s (keep_pending r b) b qc.phase qc.height
                    (λ commits. record {
                      qc = qc;
                      among = m;
                      accepted = subst (λ set. verify_qc set qc ≡ ok tt) k.set valid;
                      commits = commits;
                      at_height = ground (arith, nat_beq_iff qc.height b.header.height);
                      names = ground (arith, eq_bytes_iff qc.block_hash (block_hash b));
                    })
                    (SameChain-HasChain seen s r (keep_pending r b) (keep_pending-SameChain r b) k))
          ]
        ]
  ]

  -- The certificate of a message, and those of a history.
  abbrev pub certificates_of : Message → List QuorumCertificate
  certificates_of (proposal b) = []
  certificates_of (certified b qc) = qc ∷ []

  abbrev pub delivered : List Input → List QuorumCertificate
  delivered [] = []
  delivered (input ∷ inputs) = certificates_of input.message ++ delivered inputs

  deliver-HasChain :
      (seen : List QuorumCertificate) (s : ValidatorSet) (r : Replica) (m : Message)
      → ((qc : QuorumCertificate) → Elem qc (certificates_of m) → Elem qc seen)
      → HasChain seen s r
      → HasChain seen s (deliver r m).0
  unfolding deliver
  deliver-HasChain seen s r (proposal b) all k =
      SameChain-HasChain seen s r (on_proposal r b).0 (on_proposal-SameChain r b) k
  deliver-HasChain seen s r (certified b qc) all k =
      on_qc-HasChain seen s r b qc (all qc (inl refl)) k

  run-HasChain_of_seen :
      (seen : List QuorumCertificate) (s : ValidatorSet) (r : Replica) (inputs : List Input)
      → ((qc : QuorumCertificate) → Elem qc (delivered inputs) → Elem qc seen)
      → HasChain seen s r
      → HasChain seen s (run r inputs).0
  unfolding run
  run-HasChain_of_seen seen s r [] all k = k
  run-HasChain_of_seen seen s r (input ∷ inputs) all k =
      run-HasChain_of_seen seen s (deliver (with_validator r input.validate) input.message).0 inputs
        (λ qc m. all qc (Elem-append_right qc (certificates_of input.message) (delivered inputs) m))
        (deliver-HasChain seen s (with_validator r input.validate) input.message
          (λ qc m.
            all qc (Elem-append_left qc (certificates_of input.message) (delivered inputs) m))
          (record { set = k.set; chain = k.chain; height_is = k.height_is; tip_is = k.tip_is }))

  IsChain-seen :
      (seen more : List QuorumCertificate) (s : ValidatorSet) (height : ℕ) (hash : Bytes)
      (bs : List Block)
      → ((qc : QuorumCertificate) → Elem qc seen → Elem qc more)
      → IsChain seen s height hash bs
      → IsChain more s height hash bs
  IsChain-seen seen more s height hash [] all k = tt
  IsChain-seen seen more s height hash (b ∷ bs) all (h, p, f, k) = (
    h,
    p,
    record {
      qc = f.qc;
      among = all f.qc f.among;
      accepted = f.accepted;
      commits = f.commits;
      at_height = f.at_height;
      names = f.names;
    },
    IsChain-seen seen more s b.header.height (block_hash b) bs all k,
  )

  -- Whatever messages reach a replica whose finalized blocks are a chain from genesis, they stay
  -- one: heights go up by one, each block names its parent's hash, and for each a commit
  -- certificate was accepted, one of the messages or one that the chain stood on before; the
  -- replica's height and tip are those of its last block.
  pub run-HasChain :
      (seen : List QuorumCertificate) (s : ValidatorSet) (r : Replica) (inputs : List Input)
      → HasChain seen s r
      → HasChain (delivered inputs ++ seen) s (run r inputs).0
  run-HasChain seen s r inputs k =
      run-HasChain_of_seen (delivered inputs ++ seen) s r inputs
        (λ qc m. Elem-append_left qc (delivered inputs) seen m)
        (record {
          set = k.set;
          chain =
              IsChain-seen seen (delivered inputs ++ seen) s 0 genesis_hash r.blocks
                (λ qc m. Elem-append_right qc (delivered inputs) seen m) k.chain;
          height_is = k.height_is;
          tip_is = k.tip_is;
        })

  -- A new replica has the empty chain.
  pub new_replica-HasChain :
      (id key : Bytes) (s : ValidatorSet) (validate : Option BlockValidator) {r : Replica}
      → new_replica id key s validate ≡ ok r
      → HasChain [] s r
  unfolding new_replica
  new_replica-HasChain id key s validate {r} h = ground arith
