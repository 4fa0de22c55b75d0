-- ===== src/Evm/Binding.antt =====
-- What a receipt binds (internal/evm/forwarder.go).
use ai_po_w_unified_dag.Prelude.{
  refl, ok, ◌==◌, bytes_eq, eq_bytes_iff, Bool-cases, arith, Bytes, ◌≡◌, sym, ◌∙◌, ap₂, ◌⊎◌, ◌↔◌,
  ◌&&◌, inl, inr, ap,
}
use ai_po_w_unified_dag.Prelude.Results.{Result-cases}
use ai_po_w_unified_dag.Protocol.{Crypto, EvmRequest, EvmReceipt, hash_json, hash_bytes}
use ai_po_w_unified_dag.Protocol.Primitives.{Collision, evm_request}
use ai_po_w_unified_dag.Evm.Receipts.{
  normalize_request, make_receipt, state_root, check_receipt, verify_receipt,
}

module _ ⦃c : Crypto⦄ where
  -- A receipt that was made for the request, as VerifyReceipt wants it.
  pub record IsReceipt (parent_hash : Bytes) (request : EvmRequest) (receipt : EvmReceipt)
      : Type 0 where
    pub method_is : receipt.method ≡ request.method
    pub request_is : receipt.request_hash ≡ hash_json (evm_request request)
    pub response_is : receipt.response_hash ≡ hash_bytes receipt.response
    pub root_is :
        receipt.state_root ≡ state_root parent_hash receipt.request_hash receipt.response_hash

  check_receipt-IsReceipt :
      (parent_hash : Bytes) (request : EvmRequest) (receipt : EvmReceipt)
      → check_receipt parent_hash request receipt ≡ ok tt
      → IsReceipt parent_hash request receipt
  unfolding check_receipt make_receipt
  check_receipt-IsReceipt parent_hash request receipt h =
      let method = (eq_bytes_iff receipt.method request.method).0 (ground arith) in
      let requested =
        (eq_bytes_iff (hash_json (evm_request request)) receipt.request_hash).0 (ground arith) in
      let responded =
        (eq_bytes_iff (hash_bytes receipt.response) receipt.response_hash).0 (ground arith) in
      let root =
        (eq_bytes_iff
            (state_root parent_hash (hash_json (evm_request request)) (hash_bytes receipt.response))
            receipt.state_root).0
          (ground arith) in
      record {
        method_is = method;
        request_is = sym requested;
        response_is = sym responded;
        root_is = sym root ∙ ap₂ (λ a b. state_root parent_hash a b) requested responded;
      }

  IsReceipt-check_receipt :
      (parent_hash : Bytes) (request : EvmRequest) (receipt : EvmReceipt)
      → IsReceipt parent_hash request receipt
      → check_receipt parent_hash request receipt ≡ ok tt
  unfolding check_receipt make_receipt
  IsReceipt-check_receipt parent_hash request receipt k =
      let root = sym k.root_is ∙ refl in
      let method = (eq_bytes_iff receipt.method request.method).1 k.method_is in
      let requested =
        (eq_bytes_iff (hash_json (evm_request request)) receipt.request_hash).1
          (sym k.request_is) in
      let responded =
        (eq_bytes_iff (hash_bytes receipt.response) receipt.response_hash).1 (sym k.response_is) in
      let rooted =
        (eq_bytes_iff
            (state_root parent_hash (hash_json (evm_request request)) (hash_bytes receipt.response))
            receipt.state_root).1
          (ap₂ (λ a b. state_root parent_hash a b) (sym k.request_is) (sym k.response_is)
            ∙ sym k.root_is) in
      rw (method, requested, responded, rooted)

  -- VerifyReceipt accepts a receipt exactly when the request is valid and the receipt's method, its
  -- hashes of the request and of the response, and its root are those that the request, normalized,
  -- the response and the parent block give.
  pub verify_receipt-ok_iff :
      (parent_hash : Bytes) (request : EvmRequest) (receipt : EvmReceipt)
      → (verify_receipt parent_hash request receipt ≡ ok tt)
        ↔ ((r : EvmRequest) × (normalize_request request ≡ ok r) × IsReceipt parent_hash r receipt)
  unfolding verify_receipt
  verify_receipt-ok_iff parent_hash request receipt = (
    λ h. elim (Result-cases (normalize_request request)) [
      | inl (r, good) ↦
          (r, good, check_receipt-IsReceipt parent_hash r receipt (rw (good, verify_receipt) at h))
      | inr (e, bad) ↦ let k = rw (bad, verify_receipt) at h in cc
    ],
    λ (r, good, k). rw (good, verify_receipt) (IsReceipt-check_receipt parent_hash r receipt k),
  )

  -- The three hashes under a root.
  root_binds :
      (p a b p' a' b' : Bytes)
      → state_root p a b ≡ state_root p' a' b'
      → ((p ≡ p') × (a ≡ a') × (b ≡ b')) ⊎ Collision hash_json
  unfolding state_root
  root_binds p a b p' a' b' h = elim (Bool-cases (p == p' && a == a' && b == b')) [
    | inl same ↦ inl (
      (eq_bytes_iff p p').0 (ground arith),
      (eq_bytes_iff a a').0 (ground arith),
      (eq_bytes_iff b b').0 (ground arith),
    )
    | inr apart ↦ inr (
      _,
      _,
      h,
      λ e.
          let ep : p ≡ p' = cc e in
          let ea : a ≡ a' = cc e in
          let eb : b ≡ b' = cc e in
          let tp = (eq_bytes_iff p p').1 ep in
          let ta = (eq_bytes_iff a a').1 ea in let tb = (eq_bytes_iff b b').1 eb in ground arith,
    )
  ]

  request_binds :
      (r s : EvmRequest)
      → hash_json (evm_request r) ≡ hash_json (evm_request s)
      → (r ≡ s) ⊎ Collision hash_json
  request_binds r s h = elim (Bool-cases (r.method == s.method && r.params == s.params)) [
    | inl same ↦
        let em = (eq_bytes_iff r.method s.method).0 (ground arith) in
        let ep = (eq_bytes_iff r.params s.params).0 (ground arith) in
        inl (ap₂ (λ m p. record { method = m; params = p }) em ep)
    | inr apart ↦ inr (
      _,
      _,
      h,
      λ e.
          let same : r ≡ s = cc e in
          let tm = (eq_bytes_iff r.method s.method).1 (ap (λ (x : EvmRequest). x.method) same) in
          let tp = (eq_bytes_iff r.params s.params).1 (ap (λ (x : EvmRequest). x.params) same) in
          ground arith,
    )
  ]

  response_binds : (x y : Bytes) → hash_bytes x ≡ hash_bytes y → (x ≡ y) ⊎ Collision hash_bytes
  response_binds x y h = elim (Bool-cases (x == y)) [
    | inl same ↦ inl ((eq_bytes_iff x y).0 same)
    | inr apart ↦ inr (x, y, h, λ e. let t = (eq_bytes_iff x y).1 e in ground arith)
  ]

  -- The state root of a receipt binds it: two receipts that VerifyReceipt accepts and that have one
  -- root have the same parent block, the same request after normalization and the same response, or
  -- else two values, or two responses, have one hash.
  pub receipts_bind :
      (p p' : Bytes) (request request' : EvmRequest) (receipt receipt' : EvmReceipt)
      → verify_receipt p request receipt ≡ ok tt
      → verify_receipt p' request' receipt' ≡ ok tt
      → receipt.state_root ≡ receipt'.state_root
      → ((p ≡ p')
          × (normalize_request request ≡ normalize_request request')
          × (receipt.response ≡ receipt'.response))
        ⊎ (Collision hash_json ⊎ Collision hash_bytes)
  receipts_bind p p' request request' receipt receipt' h h' same =
      let (r, good, k) = (verify_receipt-ok_iff p request receipt).0 h in
      let (r', good', k') = (verify_receipt-ok_iff p' request' receipt').0 h' in
      elim (root_binds p receipt.request_hash receipt.response_hash p' receipt'.request_hash
        receipt'.response_hash (sym k.root_is ∙ (same ∙ k'.root_is))) [
          | inr found ↦ inr (inl found)
          | inl (parent, requests, responses) ↦
              elim (request_binds r r' (sym k.request_is ∙ (requests ∙ k'.request_is))) [
                | inr found ↦ inr (inl found)
                | inl er ↦
                    elim (response_binds receipt.response receipt'.response
                      (sym k.response_is ∙ (responses ∙ k'.response_is))) [
                        | inr found ↦ inr (inr found)
                        | inl es ↦ inl (parent, good ∙ (ap ok er ∙ sym good'), es)
                      ]
              ]
        ]
