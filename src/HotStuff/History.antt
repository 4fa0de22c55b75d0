-- ===== src/HotStuff/History.antt =====
-- A replica's life: the messages that reach it, in any order, and the votes that it casts
-- (internal/hotstuff/hotstuff.go).
use ai_po_w_unified_dag.Prelude.{
  ℕ, List, [], ◌∷◌, ◌++◌, Bool, false, ◌&&◌, ◌||◌, Option, none, some, Bytes, Result, ok, err, ◌==◌,
  bytes_eq, nat_eq,
}
use ai_po_w_unified_dag.Protocol.{Phase, phase_eq, Vote, QuorumCertificate, Block, Crypto}
use ai_po_w_unified_dag.HotStuff.Errors.{Error}
use ai_po_w_unified_dag.HotStuff.Replica.{Replica, BlockValidator, QcReply, on_proposal, on_qc}

pub data Message : Type 0 where
  proposal : Block → Message
  certified : Block → QuorumCertificate → Message

-- A call of OnProposal or OnQC. The block validator reads and writes state of the node, so what it
-- answers may change from call to call: each input brings its own.
pub record Input : Type 0 where
  pub validate : Option BlockValidator
  pub message : Message

abbrev pub vote_of : Result Error Vote → List Vote
vote_of (ok vote) = vote ∷ []
vote_of (err e) = []

abbrev pub reply_votes : QcReply → List Vote
reply_votes (ok (some vote, final)) = vote ∷ []
reply_votes (ok (none, final)) = []
reply_votes (err e) = []

abbrev pub with_validator : Replica → Option BlockValidator → Replica
with_validator r validate = record r { validate = validate }

module _ ⦃c : Crypto⦄ where
  unfoldable pub deliver : Replica → Message → Replica × List Vote
  deliver r (proposal block) = let (s, reply) = on_proposal r block in (s, vote_of reply)
  deliver r (certified block qc) = let (s, reply) = on_qc r block qc in (s, reply_votes reply)

  -- The state after a history, and the votes cast in it.
  unfoldable pub run : Replica → List Input → Replica × List Vote
  run r [] = (r, [])
  run r (input ∷ inputs) =
      let (s, cast) = deliver (with_validator r input.validate) input.message in
      let (t, later) = run s inputs in (t, cast ++ later)

-- Whether a vote for this block, in this phase and at this height, is among some votes.
unfoldable pub has_cast : List Vote → Phase → ℕ → Bytes → Bool
has_cast [] phase height hash = false
has_cast (v ∷ vs) phase height hash =
    (v.phase == phase && v.height == height && v.block_hash == hash)
    || has_cast vs phase height hash
