-- ===== src/Zkml/Prover.antt =====
-- internal/zkml/zkml.go: Prove, Verify, StatementFor and ProofHash, around gnark's Groth16.
use ai_po_w_unified_dag.Prelude.{
  ℕ, [], ◌∷◌, ◌++◌, Bytes, Result, ok, err, ltb, length, codes, ◌==◌, ◌/=◌, bytes_eq, nat_eq,
  if◌then◌else◌, ◌||◌, not, none, some, ◌>>=◌, ◌>>◌, fail_if,
}
use ai_po_w_unified_dag.Prelude.Ints.{ℤ}
use ai_po_w_unified_dag.Go.Decimal.{format_big, format_uint, set_string}
use ai_po_w_unified_dag.Protocol.{Crypto, hash_json}
use ai_po_w_unified_dag.Protocol.Primitives.{zkml_proof_fields}
use ai_po_w_unified_dag.Zkml.Circuit.{
  Gnark, Inputs, Model, evaluate, validate_values, commitment, assignment_for, derive, model_domain,
  input_domain,
}

pub data Error : Type 0 where
  values_too_large no_proof unsupported_scheme bad_proof_size bad_model_commitment : Error
  bad_input_commitment bad_output bad_witness bad_proof trailing_data proof_rejected : Error

unfoldable pub scheme : Bytes
scheme = codes "groth16-bn254-quantized-linear-v1"

abbrev pub max_proof_bytes : ℕ
max_proof_bytes = 4096

pub record Proof : Type 0 where
  pub scheme : Bytes
  pub circuit_id : Bytes
  pub model_commitment : Bytes
  pub input_commitment : Bytes
  pub output : Bytes
  pub proof : Bytes

-- A prover or a verifier: the keys are those of the instance of Gnark.
pub record Verifier : Type 0 where
  pub circuit_id : Bytes

-- The commitments and the output that StatementFor returns.
pub record Statement : Type 0 where
  pub model_commitment : Bytes
  pub input_commitment : Bytes
  pub output : Bytes

abbrev pub parse : Bytes → Error → Result Error ℤ
parse text e = elim (set_string text) [ none ↦ err e | some n ↦ ok n ]

module _ ⦃g : Gnark⦄ where
  unfoldable pub prove : Verifier → Inputs → Model → Result Error Proof
  prove p input model =
      let model_commitment = commitment model_domain (model.weights ++ model.bias ∷ []) in
      let input_commitment = commitment input_domain input in
      let output = evaluate input model in
      if not (validate_values input model)
      then err values_too_large
      else elim (g.prove (assignment_for input model model_commitment input_commitment output)) [
        | none ↦ err no_proof
        | some bytes ↦ ok (record {
          scheme = scheme;
          circuit_id = p.circuit_id;
          model_commitment = format_big model_commitment;
          input_commitment = format_big input_commitment;
          output = format_uint output;
          proof = bytes;
        })
      ]

  unfoldable pub read_exactly : Bytes → Result Error (Unit {0})
  read_exactly bytes = elim (g.read_proof bytes) [
    | none ↦ err bad_proof
    | some read ↦ fail_if (read /= length bytes) trailing_data
  ]

  unfoldable pub verify : Verifier → Proof → Result Error (Unit {0})
  verify v p = do
    fail_if (p.scheme /= scheme || p.circuit_id /= v.circuit_id) unsupported_scheme
    fail_if (length p.proof == 0 || ltb max_proof_bytes (length p.proof)) bad_proof_size
    model_commitment ← parse p.model_commitment bad_model_commitment
    input_commitment ← parse p.input_commitment bad_input_commitment
    output ← parse p.output bad_output
    fail_if (not (g.public_witness model_commitment input_commitment output)) bad_witness
    read_exactly p.proof
    fail_if (not (g.verify p.proof model_commitment input_commitment output)) proof_rejected

module _ ⦃g : Gnark⦄ ⦃c : Crypto⦄ where
  unfoldable pub statement_for : Bytes → Bytes → Statement
  statement_for model_name prompt =
      let (input, model) = derive model_name prompt in
      record {
        model_commitment = format_big (commitment model_domain (model.weights ++ model.bias ∷ []));
        input_commitment = format_big (commitment input_domain input);
        output = format_uint (evaluate input model);
      }

module _ ⦃c : Crypto⦄ where
  unfoldable pub proof_hash : Proof → Bytes
  proof_hash p = hash_json (
      zkml_proof_fields p.scheme p.circuit_id p.model_commitment p.input_commitment p.output
        p.proof)
