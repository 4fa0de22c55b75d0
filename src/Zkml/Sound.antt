-- ===== src/Zkml/Sound.antt =====
-- The circuit against the evaluation in uint64, and the prover against the verifier
-- (internal/zkml/zkml.go).
use native.Mathlib.Nat.{mul-le-mul}
use ai_po_w_unified_dag.Prelude.{
  refl, ℕ, ◌+◌, ◌*◌, ◌%◌, ◌^◌, ◌<◌, ◌≤◌, ◌≡◌, List, [], ◌∷◌, ◌++◌, true, length, arith, u64,
  nat_beq_iff, nat_eq, ◌↔◌, ltb, ap, sym, ◌∙◌,
}
use ai_po_w_unified_dag.Zkml.Circuit.{
  Gnark, Inputs, Model, Circuit, evaluate, add_products, field_products, all_below, validate_values,
  define, commitment, model_domain, input_domain, field_order, dimensions,
}

-- The sum of the products and a bias, in the natural numbers.
abbrev pub linear : ℕ → List ℕ → List ℕ → ℕ
linear bias [] ws = bias
linear bias (x ∷ xs) [] = bias
linear bias (x ∷ xs) (w ∷ ws) = linear (bias + x * w) xs ws

product_lt : (x w : ℕ) → x < 2 ^ 16 → w < 2 ^ 16 → x * w < 2 ^ 32
product_lt x w hx hw =
    let most : x * w ≤ 65535 * 65535 =
      mul-le-mul {n₂ = 65535} {m₂ = 65535} (omega arith) (omega arith) in
    omega (arith, most)

-- As long as the values are small neither uint64 nor the field wraps.
linear-lt :
    (bias k : ℕ) (xs ws : List ℕ)
    → bias < 2 ^ 32 * k
    → all_below (2 ^ 16) xs ≡ true
    → all_below (2 ^ 16) ws ≡ true
    → linear bias xs ws < 2 ^ 32 * (k + length xs)
unfolding all_below
linear-lt bias k [] ws h hx hw = omega arith
linear-lt bias k (x ∷ xs) [] h hx hw = omega arith
linear-lt bias k (x ∷ xs) (w ∷ ws) h hx hw =
    let one = product_lt x w (ground arith) (ground arith) in
    omega (
      arith,
      linear-lt (bias + x * w) (k + 1) xs ws (omega (arith, one)) (ground arith) (ground arith),
    )

add_products-linear :
    (bias k : ℕ) (xs ws : List ℕ)
    → bias < 2 ^ 32 * k
    → k + length xs ≤ 2 ^ 32
    → all_below (2 ^ 16) xs ≡ true
    → all_below (2 ^ 16) ws ≡ true
    → add_products bias xs ws ≡ linear bias xs ws
unfolding all_below add_products
add_products-linear bias k [] ws h fits hx hw = refl
add_products-linear bias k (x ∷ xs) [] h fits hx hw = refl
add_products-linear bias k (x ∷ xs) (w ∷ ws) h fits hx hw =
    let one = product_lt x w (ground arith) (ground arith) in
    let exact : u64 (bias + u64 (x * w)) ≡ bias + x * w = omega (arith, one) in
    rw exact (
      add_products-linear (bias + x * w) (k + 1) xs ws (omega (arith, one)) (omega arith)
        (ground arith) (ground arith))

field_products-linear :
    (bias k : ℕ) (xs ws : List ℕ)
    → bias < 2 ^ 32 * k
    → k + length xs ≤ 2 ^ 32
    → all_below (2 ^ 16) xs ≡ true
    → all_below (2 ^ 16) ws ≡ true
    → field_products bias xs ws ≡ linear bias xs ws
unfolding all_below field_products
field_products-linear bias k [] ws h fits hx hw = refl
field_products-linear bias k (x ∷ xs) [] h fits hx hw = refl
field_products-linear bias k (x ∷ xs) (w ∷ ws) h fits hx hw =
    let one = product_lt x w (ground arith) (ground arith) in
    let exact : (bias + x * w % field_order) % field_order ≡ bias + x * w = omega (arith, one) in
    rw exact (
      field_products-linear (bias + x * w) (k + 1) xs ws (omega (arith, one)) (omega arith)
        (ground arith) (ground arith))

-- Evaluate does not overflow: for eight inputs, and values that validateValues takes, it is the
-- sum of the products and the bias, and below 2 ^ 64.
pub evaluate-linear :
    (input : Inputs) (model : Model)
    → length input ≡ dimensions
    → validate_values input model ≡ true
    → (evaluate input model ≡ linear model.bias input model.weights)
      × (evaluate input model < 2 ^ 64)
unfolding evaluate validate_values
evaluate-linear input model n h =
    let e =
      add_products-linear model.bias 1 input model.weights (ground arith) (omega arith)
        (ground arith) (ground arith) in
    let bound =
      linear-lt model.bias 1 input model.weights (ground arith) (ground arith) (ground arith) in
    (e, omega (arith, e, bound))

-- An assignment with the sizes of the circuit's arrays.
pub record IsAssignment (a : Circuit) : Type 0 where
  pub inputs_fit : length a.inputs ≡ dimensions
  pub weights_fit : length a.weights ≡ dimensions

abbrev pub model_of : Circuit → Model
model_of a = record { weights = a.weights; bias = a.bias }

-- The hash in the circuit is the one outside it.
abbrev pub MimcAgrees : Gnark → Type 0
MimcAgrees g = (xs : List ℕ) → g.circuit_mimc xs ≡ g.mimc xs

module _ ⦃g : Gnark⦄ where
  -- An assignment of the circuit that commits to a model and inputs and claims an output.
  pub record IsEvaluation (a : Circuit) : Type 0 where
    pub valid : validate_values a.inputs (model_of a) ≡ true
    pub commits_to_model : a.model_commitment ≡ commitment model_domain (a.weights ++ a.bias ∷ [])
    pub commits_to_inputs : a.input_commitment ≡ commitment input_domain a.inputs
    pub output_is : a.output ≡ evaluate a.inputs (model_of a)

  field-evaluate :
      (a : Circuit)
      → IsAssignment a
      → validate_values a.inputs (model_of a) ≡ true
      → field_products a.bias a.inputs a.weights ≡ evaluate a.inputs (model_of a)
  unfolding evaluate validate_values
  field-evaluate a k h =
      let n = k.inputs_fit in
      field_products-linear a.bias 1 a.inputs a.weights (ground arith) (omega arith) (ground arith)
        (ground arith)
      ∙ sym (evaluate-linear a.inputs (model_of a) n h).0

  length-snoc : (xs : List ℕ) (x : ℕ) → length (xs ++ x ∷ []) ≡ length xs + 1
  length-snoc [] x = refl
  length-snoc (y ∷ ys) x = omega (arith, length-snoc ys x)

  -- The constraints of the circuit hold of an assignment, with eight inputs and eight weights,
  -- exactly when its values are those that validateValues takes, its commitments are those to them
  -- and its output is what Evaluate computes in uint64. The hash in the circuit is the one outside
  -- it.
  pub define_iff :
      (a : Circuit) → MimcAgrees g → IsAssignment a → (define a ≡ true) ↔ IsEvaluation a
  unfolding define validate_values commitment
  define_iff a agrees k =
      let n = k.inputs_fit in
      let size : length (a.weights ++ a.bias ∷ []) ≡ dimensions + 1 =
        omega (arith, length-snoc a.weights a.bias, k.weights_fit) in
      let hash_inputs = agrees (input_domain ∷ dimensions ∷ a.inputs) in
      let hash_model = agrees (model_domain ∷ (dimensions + 1) ∷ (a.weights ++ a.bias ∷ [])) in
      (
        λ h.
            let valid : validate_values a.inputs (model_of a) ≡ true = ground arith in
            record {
              valid = valid;
              commits_to_model =
                  (nat_beq_iff a.model_commitment _).0 (ground arith)
                  ∙ (hash_model
                      ∙ ap (λ s. g.mimc (model_domain ∷ s ∷ (a.weights ++ a.bias ∷ [])))
                          (sym size));
              commits_to_inputs =
                  (nat_beq_iff a.input_commitment _).0 (ground arith)
                  ∙ (hash_inputs ∙ ap (λ s. g.mimc (input_domain ∷ s ∷ a.inputs)) (sym n));
              output_is = (nat_beq_iff a.output _).0 (ground arith) ∙ field-evaluate a k valid;
            },
        λ e.
            let model_ok =
              (nat_beq_iff a.model_commitment
                  (g.circuit_mimc (model_domain ∷ (dimensions + 1) ∷ (a.weights ++ a.bias ∷ [])))).1
                (e.commits_to_model
                  ∙ (ap (λ s. g.mimc (model_domain ∷ s ∷ (a.weights ++ a.bias ∷ []))) size
                      ∙ sym hash_model)) in
            let inputs_ok =
              (nat_beq_iff a.input_commitment
                  (g.circuit_mimc (input_domain ∷ dimensions ∷ a.inputs))).1
                (e.commits_to_inputs
                  ∙ (ap (λ s. g.mimc (input_domain ∷ s ∷ a.inputs)) n ∙ sym hash_inputs)) in
            let output_ok =
              (nat_beq_iff a.output (field_products a.bias a.inputs a.weights)).1
                (e.output_is ∙ sym (field-evaluate a k e.valid)) in
            let bound = (evaluate-linear a.inputs (model_of a) n e.valid).1 in
            let same = e.output_is in
            let valid = e.valid in
            let small : ltb a.output (2 ^ 64) ≡ true = ground arith in ground arith,
      )
