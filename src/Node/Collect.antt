-- ===== src/Node/Collect.antt =====
-- internal/node/network.go: collectTickets, on the responses of the miners in the order in which they
-- arrive. The map of responses is read in the order of its list.
use ai_po_w_unified_dag.Prelude.{
  List, [], ◌∷◌, ◌++◌, Bool, ◌||◌, ◌&&◌, Option, none, some, Bytes, if◌then◌else◌, length, lookup,
  insert, ltb, lt_bytes, ◌==◌, bytes_eq, nat_eq,
}
use ai_po_w_unified_dag.Protocol.{
  AiResult, PowTicket, AiProofBundle, ZkmlProofBundle, InferenceAttestation, ResultCertificate,
  MiningResponse, Crypto, hash_json,
}
use ai_po_w_unified_dag.Protocol.Primitives.{result}

-- What the call to a miner gives: its name, and the response if there is no error.
abbrev pub Answer : Type 0
Answer = Bytes × Option MiningResponse

abbrev pub Groups : Type 0
Groups = List (Bytes × List MiningResponse)

-- `responsesByResult[hash]`, where a missing entry reads as no responses.
unfoldable pub group_at : Bytes → Groups → List MiningResponse
group_at hash groups = elim (lookup hash groups) [ none ↦ [] | some responses ↦ responses ]

-- The choice so far: the responses and their hash.
pub record Choice : Type 0 where
  pub selected : List MiningResponse
  pub selected_hash : Bytes

-- Whether a group replaces the choice.
unfoldable pub is_better : Bytes → List MiningResponse → Choice → Bool
is_better hash responses c =
    ltb (length c.selected) (length responses)
    || (length responses == length c.selected
        && (c.selected_hash == [] || lt_bytes hash c.selected_hash))

unfoldable pub select : Groups → Choice → Choice
select [] c = c
select ((hash, responses) ∷ groups) c =
    let better = select groups (record { selected = responses; selected_hash = hash }) in
    let worse = select groups c in if is_better hash responses c then better else worse

unfoldable pub tickets_of : List MiningResponse → List PowTicket
tickets_of [] = []
tickets_of (r ∷ rs) = r.ticket ∷ tickets_of rs

unfoldable pub attestations_of : List MiningResponse → List InferenceAttestation
attestations_of [] = []
attestations_of (r ∷ rs) = r.attestation ∷ attestations_of rs

abbrev add_some {ℓ} : {A : Type ℓ} → Option A → List A → List A
add_some none others = others
add_some (some a) others = a ∷ others

unfoldable pub ai_proofs_of : List MiningResponse → List AiProofBundle
ai_proofs_of [] = []
ai_proofs_of (r ∷ rs) = add_some r.ai_proof (ai_proofs_of rs)

unfoldable pub zkml_proofs_of : List MiningResponse → List ZkmlProofBundle
zkml_proofs_of [] = []
zkml_proofs_of (r ∷ rs) = add_some r.zkml_proof (zkml_proofs_of rs)

pub record Collected : Type 0 where
  pub tickets : List PowTicket
  pub result : AiResult
  pub ai_proofs : List AiProofBundle
  pub certificate : ResultCertificate
  pub zkml_proofs : List ZkmlProofBundle

abbrev no_result : AiResult
no_result = record {
  job_id = [];
  model_hash = [];
  input_hash = [];
  output = [];
  output_hash = [];
  ai_digest = [];
  proof_scheme = [];
}

abbrev pub nothing_collected : Collected
nothing_collected = record {
  tickets = [];
  result = no_result;
  ai_proofs = [];
  certificate = record { result_hash = []; attestations = [] };
  zkml_proofs = [];
}

-- What is returned for the choice.
unfoldable pub collected : Choice → Collected
collected c = elim c.selected [
  | [] ↦ nothing_collected
  | first ∷ more ↦ record {
    tickets = tickets_of (first ∷ more);
    result = first.result;
    ai_proofs = ai_proofs_of (first ∷ more);
    certificate = record {
      result_hash = c.selected_hash;
      attestations = attestations_of (first ∷ more);
    };
    zkml_proofs = zkml_proofs_of (first ∷ more);
  }
]

module _ ⦃c : Crypto⦄ where
  -- The loop that fills `responsesByResult`.
  unfoldable pub group_responses : List Answer → Groups → Groups
  group_responses [] groups = groups
  group_responses ((id, none) ∷ answers) groups = group_responses answers groups
  group_responses ((id, some r) ∷ answers) groups =
      let hash = hash_json (result r.result) in
      let added = insert hash (group_at hash groups ++ r ∷ []) groups in
      let with_it = group_responses answers added in
      let without = group_responses answers groups in
      if r.ticket.miner_id == id then with_it else without

  unfoldable pub collect_tickets : List Answer → Collected
  collect_tickets answers =
      collected (select (group_responses answers []) (record { selected = []; selected_hash = [] }))
