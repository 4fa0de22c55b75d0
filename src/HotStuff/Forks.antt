-- ===== src/HotStuff/Forks.antt =====
-- The finalized chains of two replicas (internal/hotstuff/hotstuff.go).
use ai_po_w_unified_dag.Prelude.{
  ℕ, zero, suc, ◌≡◌, refl, sym, ◌∙◌, List, [], ◌∷◌, ◌++◌, some, Bytes, arith, get_elem?, bytes_eq,
  nat_eq, All-Elem, All,
}
use ai_po_w_unified_dag.Protocol.{QuorumCertificate, Block, Crypto, block_hash, genesis_hash}
use ai_po_w_unified_dag.HotStuff.Validators.{ValidatorSet}
use ai_po_w_unified_dag.HotStuff.Replica.{Replica}
use ai_po_w_unified_dag.HotStuff.History.{Input, run}
use ai_po_w_unified_dag.HotStuff.Agreement.{
  KeysAreMembers, Network, FewFaulty, AreUnforged, agreement,
}
use ai_po_w_unified_dag.HotStuff.Chain.{IsFinal, IsChain, HasChain, run-HasChain, delivered}

module _ ⦃c : Crypto⦄ where
  -- No vote of these certificates is forged.
  abbrev pub HaveUnforgedVotes : ValidatorSet → Network → List QuorumCertificate → Type 0
  HaveUnforgedVotes s n seen = All (λ (qc : QuorumCertificate). AreUnforged s n qc.votes) seen

  IsFinal-unforged :
      (s : ValidatorSet) (n : Network) (seen : List QuorumCertificate) {b : Block}
      (f : IsFinal seen s b)
      → HaveUnforgedVotes s n seen
      → AreUnforged s n f.qc.votes
  IsFinal-unforged s n seen f un =
      All-Elem (λ (qc : QuorumCertificate). AreUnforged s n qc.votes) seen un f.among

  IsChain-agree :
      (seen seen' : List QuorumCertificate) (s : ValidatorSet) (n : Network) (height height' : ℕ)
      (hash hash' : Bytes) (xs ys : List Block) (k : ℕ) {a b : Block}
      → KeysAreMembers s
      → FewFaulty s n
      → HaveUnforgedVotes s n seen
      → HaveUnforgedVotes s n seen'
      → height ≡ height'
      → IsChain seen s height hash xs
      → IsChain seen' s height' hash' ys
      → get_elem? xs k ≡ some a
      → get_elem? ys k ≡ some b
      → block_hash a ≡ block_hash b
  IsChain-agree seen seen' s n height height' hash hash' [] ys k m few un un' e cx cy ex ey = cc
  IsChain-agree seen seen' s n height height' hash hash' (x ∷ xs) [] k m few un un' e cx cy ex ey =
      cc
  IsChain-agree seen seen' s n height height' hash hash' (x ∷ xs) (y ∷ ys) zero {a} {b} m few un un'
        e (hx, px, fx, cx) (hy, py, fy, cy) ex ey =
      let named =
        agreement s n fx.qc fy.qc m few (IsFinal-unforged s n seen fx un)
          (IsFinal-unforged s n seen' fy un') fx.accepted fy.accepted (fx.commits ∙ sym fy.commits)
          (omega (arith, fx.at_height, fy.at_height)) in
      let same_hash : block_hash x ≡ block_hash y = sym fx.names ∙ (named ∙ fy.names) in
      cc same_hash
  IsChain-agree seen seen' s n height height' hash hash' (x ∷ xs) (y ∷ ys) (suc k) m few un un' e
        (hx, px, fx, cx) (hy, py, fy, cy) ex ey =
      IsChain-agree seen seen' s n x.header.height y.header.height (block_hash x) (block_hash y) xs
        ys k m few un un' (omega arith) cx cy ex ey

  -- No fork: two replicas that start with a chain from genesis, whatever messages reached them,
  -- hold blocks with the same hash wherever both of their finalized chains reach, if the set's keys
  -- belong to its members, fewer than a third of these are faulty, and in the certificates that
  -- reached the two replicas or that their chains stood on before no vote in the name of a
  -- validator that is not faulty is forged.
  pub chains_agree :
      (s : ValidatorSet) (n : Network) (r t : Replica) (seen_r seen_t : List QuorumCertificate)
      (for_r for_t : List Input) (k : ℕ) {a b : Block}
      → KeysAreMembers s
      → FewFaulty s n
      → HaveUnforgedVotes s n (delivered for_r ++ seen_r)
      → HaveUnforgedVotes s n (delivered for_t ++ seen_t)
      → HasChain seen_r s r
      → HasChain seen_t s t
      → get_elem? (run r for_r).0.blocks k ≡ some a
      → get_elem? (run t for_t).0.blocks k ≡ some b
      → block_hash a ≡ block_hash b
  chains_agree s n r t seen_r seen_t for_r for_t k m few un_r un_t cr ct ea eb =
      IsChain-agree (delivered for_r ++ seen_r) (delivered for_t ++ seen_t) s n 0 0 genesis_hash
        genesis_hash (run r for_r).0.blocks (run t for_t).0.blocks k m few un_r un_t refl
        (run-HasChain seen_r s r for_r cr).chain (run-HasChain seen_t s t for_t ct).chain ea eb
