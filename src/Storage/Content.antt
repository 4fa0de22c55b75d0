-- ===== src/Storage/Content.antt =====
-- Content addressing (internal/storage/store.go): what Get returns has the hash that it was asked
-- for.
use ai_po_w_unified_dag.Prelude.{
  refl, sym, ◌∙◌, ap, subst, ◌≡◌, ◌⊎◌, inl, inr, [], Bool, true, Option, none, some, Bytes, length,
  lookup, insert, lookup-insert, ltb, ◌==◌, ◌/=◌, bytes_eq, nat_eq, eq_bytes_iff, Bool-cases,
  Option-cases, arith, not, ◌||◌, drop, if◌then◌else◌,
}
use ai_po_w_unified_dag.Protocol.{Crypto}
use ai_po_w_unified_dag.Storage.Store.{
  Store, Paths, put, get, load, read_file, object_id, normalize_id, valid_id,
}
use ai_po_w_unified_dag.Storage.Atomic.{Files, Os}

-- A call of the store. Between two calls the files may change in any way.
pub data Call : Type 0 where
  putting : Os → Files → Bytes → Call
  getting : (fails : Bool) → Files → Bytes → Call

module _ ⦃c : Crypto⦄ where
  -- The objects in memory stand under their names.
  abbrev pub IsContentAddressed : Store → Type 0
  IsContentAddressed s =
      (id object : Bytes) → lookup id s.objects ≡ some object → id ≡ object_id object

  insert-IsContentAddressed :
      (s : Store) (object : Bytes)
      → IsContentAddressed s
      → IsContentAddressed (record s { objects = insert (object_id object) object s.objects })
  insert-IsContentAddressed s object h id other found =
      let e = lookup-insert (object_id object) id object s.objects in
      elim (Bool-cases (object_id object == id)) [
        | inl same ↦
            let value : some object ≡ some other = sym (rw (same, if◌then◌else◌) at e) ∙ found in
            sym ((eq_bytes_iff (object_id object) id).0 same) ∙ ap object_id (cc value)
        | inr apart ↦ h id other (sym (rw (apart, if◌then◌else◌) at e) ∙ found)
      ]

module _ ⦃p : Paths⦄ ⦃c : Crypto⦄ where
  abbrev pub keep : Store → Bytes → Store
  keep s object = record s { objects = insert (object_id object) object s.objects }

  -- Put leaves the map alone or adds the object under its name; it adds any object of a good size.
  pub put-cases :
      (os : Os) (files : Files) (s : Store) (object : Bytes)
      → (((length object == 0 || ltb s.max_bytes (length object)) ≡ true)
          × ((put os files s object).0 ≡ s))
        ⊎ ((put os files s object).0 ≡ keep s object)
  unfolding put
  put-cases os files s object =
      elim (Bool-cases (length object == 0 || ltb s.max_bytes (length object))) [
        | inl bad ↦ inl (bad, rw (bad, put) refl)
        | inr good ↦ elim (Bool-cases (s.dir == [])) [
          | inl none_given ↦ inr (rw (good, none_given, put) refl)
          | inr some_dir ↦ inr (rw (good, some_dir, put) refl)
        ]
      ]

  -- Get finds nothing, or an object of the map, or an object with the name that was asked for, which
  -- it keeps.
  abbrev pub IsAnswer : Store → Bytes → Store × Option Bytes → Type 0
  IsAnswer s id answer =
      (answer ≡ (s, none))
      ⊎ ((object : Bytes) × (answer ≡ (s, some object)) × (lookup id s.objects ≡ some object))
      ⊎ ((object : Bytes) × (answer ≡ (keep s object, some object)) × (object_id object ≡ id))

  load-IsAnswer :
      (fails : Bool) (files : Files) (s : Store) (id : Bytes)
      → IsAnswer s id (load fails files s id)
  unfolding load
  load-IsAnswer fails files s id =
      elim (Option-cases (read_file fails files (p.join s.dir (drop 2 id)))) [
        | inl missing ↦ inl (rw (missing, load) refl)
        | inr (object, found) ↦
            elim (Bool-cases (ltb s.max_bytes (length object) || id /= object_id object)) [
              | inl bad ↦ inl (rw (found, load) (rw bad refl))
              | inr good ↦
                  let same : id ≡ object_id object =
                    (eq_bytes_iff id (object_id object)).0 (ground arith) in
                  inr (
                    inr (
                      object,
                      rw (found, load)
                          (rw good (
                            ap
                              (λ k. (record s { objects = insert k object s.objects }, some object))
                              same)),
                      sym same,
                    ))
            ]
      ]

  pub get-IsAnswer :
      (fails : Bool) (files : Files) (s : Store) (given : Bytes)
      → IsAnswer s (normalize_id given) (get fails files s given)
  unfolding get
  get-IsAnswer fails files s given = elim (Option-cases (lookup (normalize_id given) s.objects)) [
    | inr (object, found) ↦ inr (inl (object, rw (found, get) refl, found))
    | inl missing ↦ elim (Bool-cases (s.dir == [] || not (valid_id (normalize_id given)))) [
      | inl bad ↦ inl (rw (missing, get) (rw bad refl))
      | inr good ↦
          let e : get fails files s given ≡ load fails files s (normalize_id given) =
            rw (missing, get) (rw good refl) in
          subst (IsAnswer s (normalize_id given)) (sym e)
            (load-IsAnswer fails files s (normalize_id given))
    ]
  ]

  pub get-held :
      (fails : Bool) (files : Files) (s : Store) (given object : Bytes)
      → lookup (normalize_id given) s.objects ≡ some object
      → get fails files s given ≡ (s, some object)
  unfolding get
  get-held fails files s given object found = rw (found, get) refl

  pub put-IsContentAddressed :
      (os : Os) (files : Files) (s : Store) (object : Bytes)
      → IsContentAddressed s
      → IsContentAddressed (put os files s object).0
  put-IsContentAddressed os files s object h = elim (put-cases os files s object) [
    | inl (bad, same) ↦ rw same h
    | inr kept ↦ rw kept (insert-IsContentAddressed s object h)
  ]

  -- If the objects in memory stand under their names, Get keeps them so, and what it returns has
  -- the name that it was asked for, in the form of normalizeID, whatever the files hold.
  pub get-IsContentAddressed :
      (fails : Bool) (files : Files) (s : Store) (given : Bytes)
      → IsContentAddressed s
      → IsContentAddressed (get fails files s given).0
        × ((object : Bytes)
            → (get fails files s given).1 ≡ some object
            → object_id object ≡ normalize_id given)
  get-IsContentAddressed fails files s given h = elim (get-IsAnswer fails files s given) [
    | inl nothing ↦ rw nothing (h, λ object e. cc e)
    | inr (inl (found, answer, held)) ↦
        rw answer (h, λ object e. sym (h (normalize_id given) object (held ∙ e)))
    | inr (inr (found, answer, named)) ↦
        rw answer (insert-IsContentAddressed s found h, λ object e. ap object_id (cc e) ∙ named)
  ]
