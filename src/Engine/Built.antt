-- ===== src/Engine/Built.antt =====
-- The Mock engine (internal/engine/mock.go): what it builds it accepts, and how its head moves.
use ai_po_w_unified_dag.Prelude.Results.{Result-cases}
use ai_po_w_unified_dag.Engine.Quantity.{parse_quantity-quantity, parse_quantity}
use ai_po_w_unified_dag.Prelude.{
  subst, sym, refl, ◌≡◌, true, Bytes, some, codes, eq_bytes, insert, lookup, bytes_eq, nat_eq, ok,
  false, eq_bytes_iff, u64, err, ◌+◌, Bool-cases, ◌==◌, inl, inr, arith, Option-cases,
}
use ai_po_w_unified_dag.Protocol.{Crypto, hash_json, ExecutionPayloadEnvelope}
use ai_po_w_unified_dag.Protocol.Primitives.{text, json_object}
use ai_po_w_unified_dag.Engine.Envelope.{zero_hash, validate_envelope}
use ai_po_w_unified_dag.Engine.Mock.{
  Error, Json, Mock, BuildInput, build_payload, built, mock_state_root, text_at, build,
  check_payload, validate_locked, finalize, read_payload, advance,
}

-- What json.Marshal writes of the payload that is built json.Unmarshal reads, and a text folds to
-- itself.
pub record JsonLaws (j : Json) (c : Crypto) (m : Mock) (input : BuildInput) : Type 0 where
  pub reads :
      j.unmarshal (built ⦃c = c⦄ m input).payload
      ≡ some (
          some (
            insert
              (codes "blockHash")
              (text (built ⦃c = c⦄ m input).block_hash)
              (build_payload ⦃c = c⦄ m input)))
  pub folds : (t : Bytes) → j.equal_fold t t ≡ true

module _ ⦃j : Json⦄ ⦃c : Crypto⦄ where
  -- Setting the hash of the payload that is built, and setting it back, gives the payload.
  blank_again :
      (m : Mock) (input : BuildInput) (hash : Bytes)
      → insert
          (codes "blockHash")
          (text zero_hash)
          (insert (codes "blockHash") (text hash) (build_payload m input))
        ≡ build_payload m input
  unfolding build_payload insert codes eq_bytes
  blank_again m input hash = refl

  hash_of_built :
      (m : Mock) (input : BuildInput) (hash : Bytes)
      → text_at (codes "blockHash") (insert (codes "blockHash") (text hash) (build_payload m input))
        ≡ hash
  unfolding build_payload insert codes eq_bytes text_at lookup
  hash_of_built m input hash = refl

  state_of_built :
      (m : Mock) (input : BuildInput)
      → text_at (codes "stateRoot") (build_payload m input) ≡ mock_state_root m input
  unfolding build_payload codes eq_bytes text_at lookup
  state_of_built m input = refl

  check_payload-built :
      (m : Mock) (input : BuildInput)
      → JsonLaws j c m input
      → check_payload
          (built m input)
          (insert (codes "blockHash") (text (built m input).block_hash) (build_payload m input))
        ≡ ok tt
  unfolding check_payload
  check_payload-built m input laws =
      let hash = hash_json (json_object (build_payload m input)) in
      let folded = laws.folds hash in
      let state = laws.folds (mock_state_root m input) in
      rw (hash_of_built m input hash, blank_again m input hash, state_of_built m input)
        (rw (folded, state) refl)

  validate_locked-built :
      (m : Mock) (input : BuildInput)
      → JsonLaws j c m input
      → validate_envelope (built m input) ≡ ok tt
      → validate_locked m (built m input) ≡ ok tt
  unfolding validate_locked read_payload
  validate_locked-built m input laws shaped =
      let hash = hash_json (json_object (build_payload m input)) in
      let same_fork = (eq_bytes_iff m.fork m.fork).1 refl in
      let same_head = laws.folds m.head in
      let read = laws.reads in
      let checked = check_payload-built m input laws in
      rw shaped (rw (same_fork, same_head) (rw (read, read_payload) checked))

  -- An envelope that Build returned and that ValidateEnvelope accepts, whose hash is not that of
  -- the head, is finalized: the head becomes its hash, and the height goes up by one, on uint64.
  -- The payload reads back from its JSON text, and a text folds to itself.
  pub finalize-build :
      (m : Mock) (input : BuildInput) (e : ExecutionPayloadEnvelope)
      → JsonLaws j c m input
      → build m input ≡ ok e
      → validate_envelope e ≡ ok tt
      → j.equal_fold e.block_hash m.head ≡ false
      → finalize m e ≡ (record m { head = e.block_hash; height = u64 (m.height + 1) }, ok tt)
  unfolding build finalize advance
  finalize-build m input e laws h shaped moved = elim (Bool-cases (input.timestamp == 0)) [
    | inl missing ↦ let k = rw (missing, build) at h in cc k
    | inr present ↦
        let k = rw (present, build) at h in
        let same : built m input ≡ e = cc k in
        let shaped_built = subst (λ x. validate_envelope x ≡ ok tt) (sym same) shaped in
        let moved_built =
          subst (λ (x : ExecutionPayloadEnvelope). j.equal_fold x.block_hash m.head ≡ false)
            (sym same) moved in
        let valid = validate_locked-built m input laws shaped_built in
        let number = parse_quantity-quantity (u64 (m.height + 1)) (omega arith) in
        subst
          (λ (x : ExecutionPayloadEnvelope).
            finalize m x ≡ (record m { head = x.block_hash; height = u64 (m.height + 1) }, ok tt))
          same (rw (moved_built, finalize) (rw valid (rw (number, advance) refl)))
  ]

  -- If Finalize returns an error, the engine has not changed, and the hash of the envelope was not
  -- that of the head.
  pub finalize-fails :
      (m : Mock) (e : ExecutionPayloadEnvelope) (x : Error)
      → (finalize m e).1 ≡ err x
      → ((finalize m e).0 ≡ m) × (j.equal_fold e.block_hash m.head ≡ false)
  unfolding finalize advance
  finalize-fails m e x h = elim (Bool-cases (j.equal_fold e.block_hash m.head)) [
    | inl same ↦ let k = rw (same, finalize) at h in cc k
    | inr moved ↦ elim (Result-cases (validate_locked m e)) [
      | inr (y, bad) ↦ rw (moved, finalize) (rw bad (refl, refl))
      | inl (u, good) ↦ elim (Option-cases (parse_quantity e.block_number)) [
        | inl none_read ↦ rw (moved, finalize) (rw good (rw (none_read, advance) (refl, refl)))
        | inr (n, read) ↦
            let k = rw (moved, finalize) at h in
            let l = rw good at k in let w = rw (read, advance) at l in cc w
      ]
    ]
  ]
