-- ===== src/Tests/Proofs.antt =====
-- Runs of the zkML circuit, prover and verifier.
use ai_po_w_unified_dag.Prelude.{
  refl, eq_bytes, ◌≡◌, ◌<◌, ◌↔◌, ◌^◌, ◌&&◌, true, [], ◌∷◌, some, ok, length, replicate, arith,
  codes, ◌==◌, ◌>>=◌,
}
use ai_po_w_unified_dag.Prelude.Ints.{ℤ, pos, int_eq, int_beq_iff}
use ai_po_w_unified_dag.Go.Decimal.{set_string, read_digits}
use ai_po_w_unified_dag.Zkml.Circuit.{
  Gnark, Inputs, Model, Circuit, evaluate, field_products, all_below, validate_values, define,
}
use ai_po_w_unified_dag.Zkml.Prover.{Proof, Verifier, scheme, prove, verify, read_exactly}
use ai_po_w_unified_dag.Zkml.Sound.{linear, evaluate-linear, IsEvaluation, define_iff}
use ai_po_w_unified_dag.Zkml.Verified.{
  IsComplete, IsKnown, IsProved, verify-IsProved, verify-prove, field_element,
}

-- A proof system that accepts every proof of one byte, and hashes everything to 0.
abbrev pub trusting : Gnark
trusting = record {
  mimc = λ xs. 0;
  circuit_mimc = λ xs. 0;
  prove = λ a. some (1 ∷ []);
  public_witness = λ m i o. true;
  read_proof = λ b. some (length b);
  verify = λ b m i o. true;
}

-- One that accepts only the statement that is 0 everywhere.
abbrev strict : Gnark
strict = record trusting { verify = λ b m i o. m == pos 0 && i == pos 0 && o == pos 0 }

abbrev ones : Inputs
ones = replicate 8 1

abbrev some_model : Model
some_model = record { weights = replicate 8 2; bias = 5 }

abbrev blank : Circuit
blank = record {
  inputs = replicate 8 0;
  weights = replicate 8 0;
  bias = 0;
  model_commitment = 0;
  input_commitment = 0;
  output = 0;
}

trusting-IsComplete : IsComplete trusting
trusting-IsComplete = record {
  proof_of = λ a. 1 ∷ [];
  proves = λ a h. refl;
  size = λ a. (omega arith, omega arith);
  reads = λ a. refl;
  takes = λ m i o. refl;
  accepts = λ a h. refl;
}

zero_of : (m : ℤ) → (m == pos 0) ≡ true → 0 ≡ field_element m
zero_of m h = rw ((int_beq_iff m (pos 0)).0 h) refl

blank_demo : define ⦃g = strict⦄ blank ≡ true
unfolding define all_below field_products
blank_demo = refl

blank-IsKnown : IsKnown strict (pos 0) (pos 0) (pos 0) blank
blank-IsKnown = record {
  sized = record { inputs_fit = refl; weights_fit = refl };
  satisfies = blank_demo;
  publics = (zero_of (pos 0) refl, zero_of (pos 0) refl, zero_of (pos 0) refl);
}

values_demo : validate_values ones some_model ≡ true
unfolding validate_values all_below
values_demo = refl

evaluate-linear_example :
    (evaluate ones some_model ≡ linear 5 ones (replicate 8 2)) × (evaluate ones some_model < 2 ^ 64)
evaluate-linear_example = evaluate-linear ones some_model refl values_demo

define_iff_example : (define ⦃g = strict⦄ blank ≡ true) ↔ IsEvaluation ⦃g = strict⦄ blank
define_iff_example =
    define_iff ⦃g = strict⦄ blank (λ xs. refl) (record { inputs_fit = refl; weights_fit = refl })

abbrev pub checker : Verifier
checker = record { circuit_id = 7 ∷ [] }

verify-prove_example :
    (prove ⦃g = trusting⦄ checker ones some_model >>= verify ⦃g = trusting⦄ checker) ≡ ok tt
verify-prove_example =
    verify-prove ⦃g = trusting⦄ checker ones some_model (λ xs. refl) trusting-IsComplete refl refl
      values_demo

abbrev zero_proof : Proof
zero_proof = record {
  scheme = codes "groth16-bn254-quantized-linear-v1";
  circuit_id = 7 ∷ [];
  model_commitment = codes "0";
  input_commitment = codes "0";
  output = codes "0";
  proof = 1 ∷ [];
}

zero_demo : verify ⦃g = strict⦄ checker zero_proof ≡ ok tt
unfolding verify read_exactly scheme codes eq_bytes set_string read_digits
zero_demo = refl

zero_text : set_string (codes "0") ≡ some (pos 0)
unfolding codes set_string read_digits
zero_text = refl

verify-IsProved_example : IsProved ⦃g = strict⦄ checker zero_proof (pos 0) (pos 0) (pos 0)
verify-IsProved_example =
    verify-IsProved ⦃g = strict⦄ checker zero_proof (pos 0) (pos 0) (pos 0) blank (λ xs. refl)
      zero_text zero_text zero_text (λ h. blank-IsKnown) zero_demo
