-- ===== src/Zkml/Circuit.antt =====
-- internal/zkml/zkml.go: the quantized linear model, its circuit and its evaluation.
use ai_po_w_unified_dag.Prelude.{
  zero, suc, Option, ℕ, ◌+◌, ◌*◌, ◌%◌, ◌^◌, List, [], ◌∷◌, ◌++◌, Bool, true, ◌&&◌, Bytes, ltb,
  length, drop, u64, codes, ◌==◌, nat_eq, suc, Option,
}
use ai_po_w_unified_dag.Prelude.Ints.{ℤ}
use ai_po_w_unified_dag.Go.Binary.{get_uint}
use ai_po_w_unified_dag.Protocol.{Crypto}

abbrev pub dimensions : ℕ
dimensions = 8

abbrev pub input_domain : ℕ
input_domain = 0x4149494e50555431

abbrev pub model_domain : ℕ
model_domain = 0x41494d4f44454c31

-- The order of the scalar field of BN254.
abbrev pub field_order : ℕ
field_order = 21888242871839275222246405745257275088548364400416034343698204186575808495617

-- `[Dimensions]uint64`, a list of 8.
abbrev pub Inputs : Type 0
Inputs = List ℕ

pub record Model : Type 0 where
  pub weights : List ℕ  -- [Dimensions]uint64
  pub bias : ℕ  -- uint64

-- An assignment of the circuit; the last three are public.
pub record Circuit : Type 0 where
  pub inputs : List ℕ
  pub weights : List ℕ
  pub bias : ℕ
  pub model_commitment : ℕ
  pub input_commitment : ℕ
  pub output : ℕ

-- The loop of Evaluate.
unfoldable pub add_products : ℕ → List ℕ → List ℕ → ℕ
add_products output [] ws = output
add_products output (x ∷ xs) [] = output
add_products output (x ∷ xs) (w ∷ ws) = add_products (u64 (output + u64 (x * w))) xs ws

unfoldable pub evaluate : Inputs → Model → ℕ
evaluate input model = add_products model.bias input model.weights

-- The loop of Define that adds up the output, in the field.
unfoldable pub field_products : ℕ → List ℕ → List ℕ → ℕ
field_products output [] ws = output
field_products output (x ∷ xs) [] = output
field_products output (x ∷ xs) (w ∷ ws) =
    field_products ((output + x * w % field_order) % field_order) xs ws

-- `api.ToBinary(v, bits)` on each of some variables.
unfoldable pub all_below : ℕ → List ℕ → Bool
all_below bound [] = true
all_below bound (x ∷ xs) = ltb x bound && all_below bound xs

-- `input[i] >= 1<<16 || model.Weights[i] >= 1<<16` for no i
unfoldable pub validate_values : Inputs → Model → Bool
validate_values input model =
    ltb model.bias (2 ^ 32) && all_below (2 ^ 16) input && all_below (2 ^ 16) model.weights

-- The uint16 words of a seed.
unfoldable pub seed_words : ℕ → Bytes → List ℕ
seed_words zero seed = []
seed_words (suc n) seed = get_uint 2 seed ∷ seed_words n (drop 2 seed)

-- gnark's MiMC hash of field elements, outside a circuit and in one, and Groth16 with the keys and
-- the circuit: what NewWitness, Prove with WriteTo, ReadFrom and Verify return.
pub record Gnark : Type 0 where
  pub mimc : List ℕ → ℕ
  pub circuit_mimc : List ℕ → ℕ
  -- the bytes of a proof for an assignment, if the prover finds one
  pub prove : Circuit → Option Bytes
  -- whether NewWitness takes the public values
  pub public_witness : (model_commitment input_commitment output : ℤ) → Bool
  -- the number of bytes that a proof takes at the beginning of some bytes
  pub read_proof : Bytes → Option ℕ
  pub verify : Bytes → (model_commitment input_commitment output : ℤ) → Bool

module _ ⦃g : Gnark⦄ where
  -- Define: whether the assignment satisfies the constraints.
  unfoldable pub define : Circuit → Bool
  define a =
      all_below (2 ^ 16) a.inputs
      && a.input_commitment == g.circuit_mimc (input_domain ∷ dimensions ∷ a.inputs)
      && ltb a.bias (2 ^ 32)
      && all_below (2 ^ 16) a.weights
      && a.model_commitment
        == g.circuit_mimc (model_domain ∷ (dimensions + 1) ∷ (a.weights ++ a.bias ∷ []))
      && ltb a.output (2 ^ 64)
      && a.output == field_products a.bias a.inputs a.weights

  unfoldable pub commitment : ℕ → List ℕ → ℕ
  commitment domain values = g.mimc (domain ∷ length values ∷ values)

  unfoldable pub assignment_for : Inputs → Model → ℕ → ℕ → ℕ → Circuit
  assignment_for input model model_commitment input_commitment output = record {
    inputs = input;
    weights = model.weights;
    bias = model.bias;
    model_commitment = model_commitment;
    input_commitment = input_commitment;
    output = output;
  }

module _ ⦃c : Crypto⦄ where
  unfoldable pub derive : Bytes → Bytes → Inputs × Model
  derive model_name prompt =
      let input_seed = c.sha256 (codes "AIDCHAIN_ZKML_INPUT_V1|" ++ prompt) in
      let model_seed = c.sha256 (codes "AIDCHAIN_ZKML_MODEL_V1|" ++ model_name) in
      (
        seed_words dimensions input_seed,
        record {
          weights = seed_words dimensions model_seed;
          bias = get_uint 4 (drop 16 model_seed);
        },
      )
