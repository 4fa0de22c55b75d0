-- ===== src/Protocol/Primitives.antt =====
-- What the program takes from outside its own sources and from Go's crypto and encoding packages:
-- json.Marshal and json.Valid, sha256, Ed25519, base64, the Unicode tables and, through github.com/zeebo/blake3, BLAKE3. They are
-- parameters; each theorem that needs a law of theirs names it.
use ai_po_w_unified_dag.Prelude.{ℕ, List, Bool, true, Option, some, Bytes, ◌≡◌, ◌≢◌}
use ai_po_w_unified_dag.AiSeal.Types.{Manifest}
use ai_po_w_unified_dag.Protocol.Types.{
  AiResult, EvmRequest, ExecutionPayloadEnvelope, PowTicket, AiProofBundle, ZkmlProofBundle,
  InferenceAttestation, ResultCertificate, Block, Phase,
}

-- A value of a `map[string]any`: a string, an empty array, or any other JSON text.
pub data JsonValue : Type 0 where
  text : Bytes → JsonValue
  no_items : JsonValue
  other_json : Bytes → JsonValue

-- A Go value that the program hands to json.Marshal: a message, or a struct that is written out
-- at the call with a domain text and some fields.
pub data Value : Type 0 where
  job_id_fields : (model prompt created_at : Bytes) → Value
  block : Block → Value
  result : AiResult → Value
  ticket : PowTicket → Value
  tickets : List PowTicket → Value
  ai_proofs : List AiProofBundle → Value
  zkml_proofs : List ZkmlProofBundle → Value
  certificate : ResultCertificate → Value
  execution : ExecutionPayloadEnvelope → Value
  evm_request : EvmRequest → Value
  vote_fields : (domain : Bytes) (phase : Phase) (height : ℕ) (block_hash : Bytes) → Value
  inference_fields : (domain : Bytes) → InferenceAttestation → Value
  work_fields : (domain : Bytes) → PowTicket → Value
  dummy_seed_fields : (domain model_hash input_hash : Bytes) → Value
  receipt_fields : (domain job_id model_hash input_hash output_hash manifest_root : Bytes) → Value
  randao_fields : (parent job_id : Bytes) (height : ℕ) → Value
  beacon_fields : (domain parent : Bytes) (height : ℕ) → Value
  mock_evm_fields : (accepted : Bool) (chain_id method : Bytes) → Value
  evm_receipt_fields : (domain parent_hash request_hash response_hash : Bytes) → Value
  manifest : Manifest → Value
  mock_state_fields : (domain parent : Bytes) (timestamp height : ℕ) → Value
  json_object : List (Bytes × JsonValue) → Value
  zkml_proof_fields :
      (scheme circuit_id model_commitment input_commitment output proof : Bytes) → Value

pub record Crypto : Type 0 where
  pub marshal : Value → Bytes
  pub sha256 : Bytes → Bytes
  pub blake3 : Bytes → Bytes
  -- ed25519.Verify public message signature, and ed25519.Sign private message
  pub ed25519_verify : Bytes → Bytes → Bytes → Bool
  pub ed25519_sign : Bytes → Bytes → Bytes
  pub base64_encode : Bytes → Bytes
  pub base64_decode : Bytes → Option Bytes
  pub json_valid : Bytes → Bool
  -- strings.ToLower on a text that has bytes outside ASCII
  pub to_lower_unicode : Bytes → Bytes

-- A base64 text decodes to the bytes that it was made from.
abbrev pub Base64RoundTrip : Crypto → Type 0
Base64RoundTrip c = (b : Bytes) → c.base64_decode (c.base64_encode b) ≡ some b

-- A signature made with a private key verifies under the public key that belongs to it.
abbrev pub KeyPair : Crypto → Bytes → Bytes → Type 0
KeyPair c public private =
    (message : Bytes) → c.ed25519_verify public message (c.ed25519_sign private message) ≡ true

-- Two different inputs of a function with one output.
abbrev pub Collision {ℓ κ} : {A : Type ℓ} {B : Type κ} → (A → B) → Type (ℓ ⊔ κ)
Collision {A} f = (x : A) × (y : A) × (f x ≡ f y) × (x ≢ y)
