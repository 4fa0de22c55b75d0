-- ===== src/Zkml/Verified.antt =====
-- internal/zkml/zkml.go: Prove and Verify against each other and against Evaluate, over what Groth16
-- promises.
use ai_po_w_unified_dag.Prelude.Results.{>>=-ok, >>-ok, fail_if-ok}
use ai_po_w_unified_dag.Prelude.{
  nat_beq_iff, false, Bool, ◌>>=◌, fail_if, Option-cases, inl, inr, eq_bytes_iff, refl, bytes_eq, ℕ,
  ◌%◌, ◌<◌, ◌≤◌, ◌≡◌, Bytes, ok, length, arith, some, ◌==◌, nat_eq, ltb, true, ◌-◌, ◌++◌, sym, ◌∙◌,
  ◌∷◌, [], Option-cases, inl, inr, Bool, not, ap,
}
use ai_po_w_unified_dag.Prelude.Ints.{ℤ, pos, negsuc}
use ai_po_w_unified_dag.Go.Decimal.{
  set_string, set_string-format_uint, set_string-format_big, format_big, format_uint,
}
use ai_po_w_unified_dag.Zkml.Circuit.{
  Gnark, Inputs, Model, Circuit, evaluate, validate_values, define, commitment, assignment_for,
  model_domain, input_domain, field_order, dimensions,
}
use ai_po_w_unified_dag.Zkml.Prover.{
  Error, Proof, Verifier, scheme, max_proof_bytes, prove, verify, read_exactly, parse,
  bad_model_commitment, bad_input_commitment, bad_output, bad_witness, proof_rejected,
  unsupported_scheme, bad_proof_size, trailing_data,
}
use ai_po_w_unified_dag.Zkml.Sound.{IsAssignment, MimcAgrees, model_of, define_iff, evaluate-linear}

-- The element of the field that an integer stands for.
abbrev pub field_element : ℤ → ℕ
field_element (pos n) = n % field_order
field_element (negsuc n) = field_order - 1 - n % field_order

-- Groth16 is complete: for an assignment that satisfies the circuit there is a proof, of at most
-- 4096 bytes, which is read as a whole and verifies with the public values of the assignment.
pub record IsComplete (g : Gnark) : Type 0 where
  pub proof_of : Circuit → Bytes
  pub proves : (a : Circuit) → define ⦃g = g⦄ a ≡ true → g.prove a ≡ some (proof_of a)
  pub size : (a : Circuit) → (0 < length (proof_of a)) × (length (proof_of a) ≤ max_proof_bytes)
  pub reads : (a : Circuit) → g.read_proof (proof_of a) ≡ some (length (proof_of a))
  pub takes : (m i o : ℕ) → g.public_witness (pos m) (pos i) (pos o) ≡ true
  pub accepts :
      (a : Circuit)
      → define ⦃g = g⦄ a ≡ true
      → g.verify (proof_of a) (pos a.model_commitment) (pos a.input_commitment) (pos a.output)
        ≡ true

-- An assignment that satisfies the circuit and has these public values, as elements of the field:
-- what the maker of a Groth16 proof for them knows.
pub record IsKnown (g : Gnark) (m i o : ℤ) (a : Circuit) : Type 0 where
  pub sized : IsAssignment a
  pub satisfies : define ⦃g = g⦄ a ≡ true
  pub publics :
      (a.model_commitment ≡ field_element m)
      × (a.input_commitment ≡ field_element i)
      × (a.output ≡ field_element o)

module _ ⦃g : Gnark⦄ where
  -- A proof of the verifier's circuit and scheme, of at most 4096 bytes that are read as a whole, and
  -- a model and inputs of the right sizes and ranges, to which the integers that its texts stand for
  -- commit and whose evaluation its output is, all as elements of the field.
  pub record IsProved (v : Verifier) (p : Proof) (m i o : ℤ) : Type 0 where
    pub scheme_is : p.scheme ≡ scheme
    pub circuit_is : p.circuit_id ≡ v.circuit_id
    pub proof_size : (0 < length p.proof) × (length p.proof ≤ max_proof_bytes)
    pub reads : g.read_proof p.proof ≡ some (length p.proof)
    pub input : Inputs
    pub model : Model
    pub input_size : length input ≡ dimensions
    pub weights_size : length model.weights ≡ dimensions
    pub valid : validate_values input model ≡ true
    pub commits_to_model :
        field_element m ≡ commitment model_domain (model.weights ++ model.bias ∷ [])
    pub commits_to_input : field_element i ≡ commitment input_domain input
    pub output_is : field_element o ≡ evaluate input model

  parse-ok : (text : Bytes) (e : Error) (n : ℤ) → parse text e ≡ ok n → set_string text ≡ some n
  parse-ok text e n h = elim (Option-cases (set_string text)) [
    | inr (k, good) ↦ let same = rw (good, parse) at h in rw good (cc same)
    | inl bad ↦ let same = rw (bad, parse) at h in cc same
  ]

  parse-some : (text : Bytes) (e : Error) (n : ℤ) → set_string text ≡ some n → parse text e ≡ ok n
  parse-some text e n h = rw (h, parse) refl

  read_exactly-ok :
      (bytes : Bytes) → g.read_proof bytes ≡ some (length bytes) → read_exactly bytes ≡ ok tt
  unfolding read_exactly
  read_exactly-ok bytes h =
      let exact : (length bytes == length bytes) ≡ true =
        (nat_beq_iff (length bytes) (length bytes)).1 refl in
      rw (h, read_exactly) (rw exact refl)

  not_fails : (b : Bool) (e : Error) → fail_if (not b) e ≡ ok tt → b ≡ true
  not_fails true e h = refl
  not_fails false e h = cc h

  parse-same :
      (text : Bytes) (e : Error) (n k : ℤ) → set_string text ≡ some n → parse text e ≡ ok k → k ≡ n
  parse-same text e n k h good = let found = parse-ok text e k good in cc (found, h)

  read_exactly-whole :
      (bytes : Bytes) → read_exactly bytes ≡ ok tt → g.read_proof bytes ≡ some (length bytes)
  unfolding read_exactly
  read_exactly-whole bytes h = elim (Option-cases (g.read_proof bytes)) [
    | inl bad ↦ let k = rw (bad, read_exactly) at h in cc k
    | inr (n, good) ↦
        let k = fail_if-ok _ trailing_data (rw (good, read_exactly) at h) in
        let same : n ≡ length bytes = (nat_beq_iff n (length bytes)).0 (ground arith) in
        good ∙ ap some same
  ]

  -- A proof that Verify accepts is of the verifier's scheme and circuit, has at most 4096 bytes that
  -- are read as a whole, and is about eight inputs and a model of eight weights to which its
  -- commitments commit, with values that validateValues takes, and its output is what Evaluate
  -- computes of them; the integers in its texts are read as elements of the field. One hash is in
  -- the circuit and outside it, and for this proof Groth16 keeps its promise: if it verifies with
  -- the public values of its texts, then they are those of a known assignment that satisfies the
  -- circuit.
  pub verify-IsProved :
      (v : Verifier) (p : Proof) (m i o : ℤ) (a : Circuit)
      → MimcAgrees g
      → set_string p.model_commitment ≡ some m
      → set_string p.input_commitment ≡ some i
      → set_string p.output ≡ some o
      → (g.verify p.proof m i o ≡ true → IsKnown g m i o a)
      → verify v p ≡ ok tt
      → IsProved v p m i o
  unfolding verify
  verify-IsProved v p m i o a agrees text_m text_i text_o known h =
      let (of_circuit, h) = >>-ok _ _ h in
      let (fits, h) = >>-ok _ _ h in
      let (m', read_m, h) = >>=-ok (parse p.model_commitment bad_model_commitment) _ h in
      let (i', read_i, h) = >>=-ok (parse p.input_commitment bad_input_commitment) _ h in
      let (o', read_o, h) = >>=-ok (parse p.output bad_output) _ h in
      let (_, h) = >>-ok (fail_if (not (g.public_witness m' i' o')) bad_witness) _ h in
      let (whole, h) = >>-ok (read_exactly p.proof) _ h in
      let same_m = parse-same p.model_commitment bad_model_commitment m m' text_m read_m in
      let same_i = parse-same p.input_commitment bad_input_commitment i i' text_i read_i in
      let same_o = parse-same p.output bad_output o o' text_o read_o in
      let scheme_ok = fail_if-ok _ unsupported_scheme of_circuit in
      let size_ok = fail_if-ok _ bad_proof_size fits in
      let same_scheme : p.scheme ≡ scheme = (eq_bytes_iff p.scheme scheme).0 (ground arith) in
      let same_circuit : p.circuit_id ≡ v.circuit_id =
        (eq_bytes_iff p.circuit_id v.circuit_id).0 (ground arith) in
      let some_bytes : 0 < length p.proof = ground arith in
      let few_bytes : length p.proof ≤ max_proof_bytes = ground arith in
      let k = known (
        rw (← same_m, ← same_i, ← same_o)
          (not_fails (g.verify p.proof m' i' o') proof_rejected h)) in
      let e = (define_iff a agrees k.sized).0 k.satisfies in
      record {
        scheme_is = same_scheme;
        circuit_is = same_circuit;
        proof_size = (some_bytes, few_bytes);
        reads = read_exactly-whole p.proof whole;
        input = a.inputs;
        model = model_of a;
        input_size = k.sized.inputs_fit;
        weights_size = k.sized.weights_fit;
        valid = e.valid;
        commits_to_model = sym k.publics.0 ∙ e.commits_to_model;
        commits_to_input = sym k.publics.1 ∙ e.commits_to_inputs;
        output_is = sym k.publics.2 ∙ e.output_is;
      }

  -- For eight inputs and a model of eight weights, with values that validateValues takes, a
  -- complete Groth16 and one hash in the circuit and outside it, Prove returns a proof and Verify
  -- with the same circuit id accepts it.
  pub verify-prove :
      (v : Verifier) (input : Inputs) (model : Model)
      → MimcAgrees g
      → IsComplete g
      → length input ≡ dimensions
      → length model.weights ≡ dimensions
      → validate_values input model ≡ true
      → (prove v input model >>= verify v) ≡ ok tt
  unfolding prove verify assignment_for
  verify-prove v input model agrees complete n k h =
      let m = commitment model_domain (model.weights ++ model.bias ∷ []) in
      let i = commitment input_domain input in
      let a = assignment_for input model m i (evaluate input model) in
      let holds : define a ≡ true =
        (define_iff a agrees (record { inputs_fit = n; weights_fit = k })).1 (record {
          valid = h;
          commits_to_model = refl;
          commits_to_inputs = refl;
          output_is = refl;
        }) in
      let found = complete.proves a holds in
      let bytes = complete.proof_of a in
      let (some_bytes, few_bytes) = complete.size a in
      let read_m =
        parse-some (format_big m) bad_model_commitment (pos m) (set_string-format_big m) in
      let read_i =
        parse-some (format_big i) bad_input_commitment (pos i) (set_string-format_big i) in
      let read_o =
        parse-some (format_uint (evaluate input model)) bad_output (pos (evaluate input model))
          (set_string-format_uint (evaluate input model) (evaluate-linear input model n h).1) in
      let same_id = (eq_bytes_iff v.circuit_id v.circuit_id).1 refl in
      let same_scheme = (eq_bytes_iff scheme scheme).1 refl in
      let whole = read_exactly-ok bytes (complete.reads a) in
      let witness = complete.takes m i (evaluate input model) in
      let accepted = complete.accepts a holds in
      let present : (length bytes == 0) ≡ false = ground arith in
      let fits : ltb max_proof_bytes (length bytes) ≡ false = ground arith in
      rw (h, found)
        (rw (same_scheme, same_id, present, fits)
          (rw (read_m, read_i, read_o) (rw (witness, whole) (rw accepted refl))))
