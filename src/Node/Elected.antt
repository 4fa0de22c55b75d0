-- ===== src/Node/Elected.antt =====
-- The result of collectTickets (internal/node/network.go): no result has more miners behind it.
use ai_po_w_unified_dag.Prelude.{
  ◌≡◌, ◌≢◌, ℕ, ◌+◌, ◌≤◌, List, [], ◌∷◌, ◌&&◌, none, some, Bytes, if◌then◌else◌, length, All, ◌==◌,
  bytes_eq, nat_eq,
}
use ai_po_w_unified_dag.Protocol.{MiningResponse, Crypto, hash_json, PowTicket}
use ai_po_w_unified_dag.Protocol.Primitives.{result}
use ai_po_w_unified_dag.Node.Collect.{Answer, Choice, select, group_responses, Collected}
use ai_po_w_unified_dag.Node.Voters.{IsVoteOf}

module _ ⦃c : Crypto⦄ where
  -- How many miners answered with a result of a hash, under their own names.
  abbrev pub votes : Bytes → List Answer → ℕ
  votes hash [] = 0
  votes hash ((id, none) ∷ answers) = votes hash answers
  votes hash ((id, some r) ∷ answers) =
      (if r.ticket.miner_id == id && hash_json (result r.result) == hash then 1 else 0)
      + votes hash answers

  abbrev chosen : List Answer → Choice
  chosen answers =
      select (group_responses answers []) (record { selected = []; selected_hash = [] })

  -- The ticket is that of an answer, under the name of the miner that was asked, with a result of
  -- the hash.
  abbrev pub IsTicketOf : List Answer → Bytes → PowTicket → Type 0
  IsTicketOf answers hash t = (r : MiningResponse) × IsVoteOf answers hash r × (r.ticket ≡ t)

  -- What collectTickets returns: the tickets of answers with the result of the certificate's hash,
  -- one for each miner that answered so under its own name, as many attestations, and that result;
  -- and no result came from more miners.
  pub record IsElected (answers : List Answer) (out : Collected) : Type 0 where
    pub tickets_from : All (IsTicketOf answers out.certificate.result_hash) out.tickets
    pub counted : length out.tickets ≡ votes out.certificate.result_hash answers
    pub attested : length out.certificate.attestations ≡ length out.tickets
    pub of_result : out.tickets ≢ [] → hash_json (result out.result) ≡ out.certificate.result_hash
    pub most : (hash : Bytes) → votes hash answers ≤ length out.tickets
