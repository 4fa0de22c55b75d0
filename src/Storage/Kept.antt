-- ===== src/Storage/Kept.antt =====
-- What Put took is there from then on (internal/storage/store.go).
use ai_po_w_unified_dag.Prelude.{
  refl, sym, ◌∙◌, ap, ◌<◌, ◌≤◌, ◌≡◌, inl, inr, List, [], ◌∷◌, Bool, some, Bytes, length, lookup,
  lookup-insert, ◌==◌, bytes_eq, nat_eq, eq_bytes_iff, Bool-cases, arith, if◌then◌else◌, All,
}
use ai_po_w_unified_dag.Protocol.{Crypto}
use ai_po_w_unified_dag.Storage.Store.{Store, Paths, put, get, object_id, normalize_id}
use ai_po_w_unified_dag.Storage.Atomic.{Files, Os}
use ai_po_w_unified_dag.Storage.Names.{Sha256Sized, normalize_id-object_id}
use ai_po_w_unified_dag.Storage.Content.{
  Call, putting, getting, keep, put-cases, get-IsAnswer, get-held,
}

module _ ⦃p : Paths⦄ ⦃c : Crypto⦄ where
  unfoldable pub step : Call → Store → Store
  step (putting os files object) s = (put os files s object).0
  step (getting fails files given) s = (get fails files s given).0

  unfoldable pub run : List Call → Store → Store
  run [] s = s
  run (call ∷ calls) s = run calls (step call s)

  keep-lookup :
      (s : Store) (object id held : Bytes)
      → (object_id object ≡ id → object ≡ held)
      → lookup id s.objects ≡ some held
      → lookup id (keep s object).objects ≡ some held
  keep-lookup s object id held same found =
      let e = lookup-insert (object_id object) id object s.objects in
      elim (Bool-cases (object_id object == id)) [
        | inl here ↦
            (rw (here, if◌then◌else◌) at e)
            ∙ ap some (same ((eq_bytes_iff (object_id object) id).0 here))
        | inr apart ↦ (rw (apart, if◌then◌else◌) at e) ∙ found
      ]

  -- The call does not put another object with the hash of this one.
  abbrev pub PutsNoOther : Bytes → Call → Type 0
  PutsNoOther object (putting os files other) = object_id other ≡ object_id object → other ≡ object
  PutsNoOther object (getting fails files given) = Unit

  step-lookup :
      (call : Call) (object : Bytes) (s : Store)
      → PutsNoOther object call
      → lookup (object_id object) s.objects ≡ some object
      → lookup (object_id object) (step call s).objects ≡ some object
  unfolding step
  step-lookup (putting os files other) object s same found = elim (put-cases os files s other) [
    | inl (bad, kept) ↦ rw (kept, step) found
    | inr kept ↦ rw (kept, step) (keep-lookup s other (object_id object) object same found)
  ]
  step-lookup (getting fails files given) object s same found =
      elim (Bool-cases (normalize_id given == object_id object)) [
        | inl asked ↦
            let id : normalize_id given ≡ object_id object =
              (eq_bytes_iff (normalize_id given) (object_id object)).0 asked in
            let here : lookup (normalize_id given) s.objects ≡ some object = rw id found in
            rw (get-held fails files s given object here, step) found
        | inr other ↦ elim (get-IsAnswer fails files s given) [
          | inl nothing ↦ rw (nothing, step) found
          | inr (inl (held, answer, here)) ↦ rw (answer, step) found
          | inr (inr (loaded, answer, named)) ↦
              rw (answer, step)
                (keep-lookup s loaded (object_id object) object
                  (λ e.
                    let k =
                      (eq_bytes_iff (normalize_id given) (object_id object)).1 (sym named ∙ e) in
                    cc (k, other))
                  found)
        ]
      ]

  run-lookup :
      (calls : List Call) (object : Bytes) (s : Store)
      → All (PutsNoOther object) calls
      → lookup (object_id object) s.objects ≡ some object
      → lookup (object_id object) (run calls s).objects ≡ some object
  unfolding run
  run-lookup [] object s same found = found
  run-lookup (call ∷ calls) object s (here, same) found =
      run-lookup calls object (step call s) same (step-lookup call object s here found)

  put-lookup :
      (os : Os) (files : Files) (s : Store) (object : Bytes)
      → 0 < length object
      → length object ≤ s.max_bytes
      → lookup (object_id object) (put os files s object).0.objects ≡ some object
  put-lookup os files s object present fits = elim (put-cases os files s object) [
    | inl (bad, same) ↦ ground arith
    | inr kept ↦
        let e = lookup-insert (object_id object) (object_id object) object s.objects in
        let same = (eq_bytes_iff (object_id object) (object_id object)).1 refl in
        rw kept (rw (same, if◌then◌else◌) at e)
  ]

  -- After a Put of an object that is not empty and not too large, and any calls of the store with
  -- any files in between that put no other object with its hash, Get of its hash returns that
  -- object. It holds whatever the store held before and also if the file could not be written.
  -- SHA-256 returns 32 bytes.
  pub get-run-put :
      (os : Os) (get_fails : Bool) (files files_later : Files) (s : Store) (object : Bytes)
      (calls : List Call)
      → Sha256Sized c
      → All (PutsNoOther object) calls
      → 0 < length object
      → length object ≤ s.max_bytes
      → (get get_fails files_later (run calls (put os files s object).0) (object_id object)).1
        ≡ some object
  get-run-put os get_fails files files_later s object calls sized same present fits =
      let found =
        run-lookup calls object (put os files s object).0 same
          (put-lookup os files s object present fits) in
      let named = normalize_id-object_id object sized in
      let here : lookup (normalize_id (object_id object))
            (run calls (put os files s object).0).objects
          ≡ some object =
        rw named found in
      rw
        (get-held get_fails files_later (run calls (put os files s object).0) (object_id object)
          object here)
        refl
