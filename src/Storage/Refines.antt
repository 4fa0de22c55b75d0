-- ===== src/Storage/Refines.antt =====
-- The store without a directory against a list of the objects that were put
-- (internal/storage/store.go), and a store that is opened again on its files.
use ai_po_w_unified_dag.Prelude.{
  refl, ◌∙◌, ap, subst, ℕ, ◌<◌, ◌≤◌, ◌≡◌, ◌≢◌, inl, inr, List, [], ◌∷◌, Bool, true, false, Option,
  none, some, Bytes, Result, ok, err, length, lookup, insert, lookup-insert, ltb, ◌==◌, bytes_eq,
  nat_eq, eq_bytes_iff, eq_bytes, Bool-cases, Option-cases, arith, ◌||◌, drop, if◌then◌else◌,
}
use ai_po_w_unified_dag.Prelude.Ints.{ℤ}
use ai_po_w_unified_dag.Protocol.{Crypto}
use ai_po_w_unified_dag.Storage.Store.{
  Store, Paths, Error, new, max_of, put, get, load, read_file, object_id, normalize_id,
  bad_object_size,
}
use ai_po_w_unified_dag.Storage.Names.{Sha256Sized, normalize_id-object_id, valid_id-object_id}
use ai_po_w_unified_dag.Storage.Atomic.{Files, Os}
use ai_po_w_unified_dag.Storage.Ends.{has_failure, write_atomic-stored}
use ai_po_w_unified_dag.Storage.Content.{Call, putting, getting}

-- What a call returns.
pub data Reply : Type 0 where
  named : Result Error Bytes → Reply
  found : Option Bytes → Reply

module _ ⦃p : Paths⦄ ⦃c : Crypto⦄ where
  -- The replies to some calls, one after another.
  unfoldable pub replies : List Call → Store → List Reply
  replies [] s = []
  replies (putting os files object ∷ calls) s =
      let (after, _, reply) = put os files s object in named reply ∷ replies calls after
  replies (getting fails files given ∷ calls) s =
      let (after, reply) = get fails files s given in found reply ∷ replies calls after

-- The specification: the objects that were put, the newest first.
module _ ⦃c : Crypto⦄ where
  unfoldable pub find_object : Bytes → List Bytes → Option Bytes
  find_object id [] = none
  find_object id (object ∷ held) =
      let rest = find_object id held in if object_id object == id then some object else rest

  unfoldable pub spec_replies : ℕ → List Call → List Bytes → List Reply
  spec_replies max_bytes [] held = []
  spec_replies max_bytes (putting os files object ∷ calls) held =
      let refused = spec_replies max_bytes calls held in
      let taken = spec_replies max_bytes calls (object ∷ held) in
      if length object == 0 || ltb max_bytes (length object)
      then named (err bad_object_size) ∷ refused
      else named (ok (object_id object)) ∷ taken
  spec_replies max_bytes (getting fails files given ∷ calls) held =
      found (find_object (normalize_id given) held) ∷ spec_replies max_bytes calls held

  -- The map holds the objects of the list, and there is no directory.
  abbrev Represents : Store → List Bytes → Type 0
  Represents s held = (s.dir ≡ []) × ((id : Bytes) → lookup id s.objects ≡ find_object id held)

module _ ⦃p : Paths⦄ ⦃c : Crypto⦄ where
  put-Represents :
      (s : Store) (object : Bytes) (held : List Bytes)
      → Represents s held
      → (length object == 0 || ltb s.max_bytes (length object)) ≡ false
      → Represents
          (record s { objects = insert (object_id object) object s.objects })
          (object ∷ held)
  unfolding find_object
  put-Represents s object held (memory, same) good = (
    memory,
    λ id.
        lookup-insert (object_id object) id object s.objects
        ∙ ap (λ rest. if object_id object == id then some object else rest) (same id),
  )

  get-memory :
      (fails : Bool) (files : Files) (s : Store) (given : Bytes)
      → s.dir ≡ []
      → get fails files s given ≡ (s, lookup (normalize_id given) s.objects)
  unfolding get
  get-memory fails files s given memory =
      let none_given : (s.dir == []) ≡ true = (eq_bytes_iff s.dir []).1 memory in
      elim (Option-cases (lookup (normalize_id given) s.objects)) [
        | inl missing ↦ rw (missing, get) (rw none_given refl)
        | inr (object, here) ↦ rw (here, get) refl
      ]

  replies-spec_replies :
      (calls : List Call) (s : Store) (held : List Bytes)
      → Represents s held
      → replies calls s ≡ spec_replies s.max_bytes calls held
  unfolding replies spec_replies put get
  replies-spec_replies [] s held r = refl
  replies-spec_replies (putting os files object ∷ calls) s held r =
      elim (Bool-cases (length object == 0 || ltb s.max_bytes (length object))) [
        | inl bad ↦
            let e = replies-spec_replies calls s held r in
            rw (bad, replies, put, spec_replies) (ap (◌∷◌ (named (err bad_object_size))) e)
        | inr good ↦
            let e =
              replies-spec_replies calls
                (record s { objects = insert (object_id object) object s.objects }) (object ∷ held)
                (put-Represents s object held r good) in
            let memory : (s.dir == []) ≡ true = (eq_bytes_iff s.dir []).1 r.0 in
            rw (good, replies, put, spec_replies)
              (rw memory (ap (◌∷◌ (named (ok (object_id object)))) e))
      ]
  replies-spec_replies (getting fails files given ∷ calls) s held r =
      let answer = get-memory fails files s given r.0 in
      let e = replies-spec_replies calls s held r in
      let same = r.1 (normalize_id given) in
      rw (answer, replies, spec_replies)
        (rw same (ap (◌∷◌ (found (find_object (normalize_id given) held))) e))

  -- A new store without a directory replies to any calls, whatever the files, as the list of the
  -- objects that were put does: Put returns the hash or refuses the size, Get the newest object with
  -- the hash.
  pub new-replies :
      (mkdir_fails : Bool) (max_bytes : ℤ) (s : Store) (calls : List Call)
      → new mkdir_fails [] max_bytes ≡ ok s
      → replies calls s ≡ spec_replies (max_of max_bytes) calls []
  unfolding new find_object lookup eq_bytes
  new-replies mkdir_fails max_bytes s calls h =
      let empty : Store = record { objects = []; dir = []; max_bytes = max_of max_bytes } in
      let same : empty ≡ s = cc h in
      subst (λ t. replies calls t ≡ spec_replies (max_of max_bytes) calls []) same
        (replies-spec_replies calls empty [] (refl, λ id. refl))

  put-file :
      (os : Os) (files : Files) (s : Store) (object : Bytes)
      → has_failure os ≡ false
      → os.temp_path ≢ some (p.join s.dir (drop 2 (object_id object)))
      → (s.dir == []) ≡ false
      → lookup (p.join s.dir (drop 2 (object_id object))) files ≡ none
      → (length object == 0 || ltb s.max_bytes (length object)) ≡ false
      → lookup (p.join s.dir (drop 2 (object_id object))) (put os files s object).1 ≡ some object
  unfolding put
  put-file os files s object works other some_dir absent good =
      let path = p.join s.dir (drop 2 (object_id object)) in
      rw (good, some_dir, put) (write_atomic-stored os files path object works other absent)

  load-file :
      (files : Files) (s : Store) (object : Bytes)
      → lookup (p.join s.dir (drop 2 (object_id object))) files ≡ some object
      → ltb s.max_bytes (length object) ≡ false
      → (load false files s (object_id object)).1 ≡ some object
  unfolding load read_file
  load-file files s object there fits =
      let same = (eq_bytes_iff (object_id object) (object_id object)).1 refl in
      rw (there, load, read_file) (rw (fits, same) refl)

  -- An object that Put wrote to a file is found by a store that is opened later on the same
  -- directory and files with the same limit: there was no file of that name, the temporary file has
  -- another name, no call of the operating system fails but perhaps the removal of the temporary
  -- file or os.Stat, the object is not empty and not too large, and SHA-256 returns 32 bytes.
  pub get-new-put :
      (os : Os) (files : Files) (s : Store) (max_bytes : ℤ) (object : Bytes)
      → Sha256Sized c
      → has_failure os ≡ false
      → os.temp_path ≢ some (p.join s.dir (drop 2 (object_id object)))
      → (s.dir == []) ≡ false
      → lookup (p.join s.dir (drop 2 (object_id object))) files ≡ none
      → 0 < length object
      → length object ≤ s.max_bytes
      → s.max_bytes ≡ max_of max_bytes
      → (fresh : Store) × (new false s.dir max_bytes ≡ ok fresh)
        × ((get false (put os files s object).1 fresh (object_id object)).1 ≡ some object)
  unfolding new get lookup
  get-new-put os files s max_bytes object sized works other some_dir absent present fits same_max =
      let fresh : Store = record { objects = []; dir = s.dir; max_bytes = max_of max_bytes } in
      let path = p.join s.dir (drop 2 (object_id object)) in
      let good : (length object == 0 || ltb s.max_bytes (length object)) ≡ false = ground arith in
      let fits_later : ltb (max_of max_bytes) (length object) ≡ false = ground arith in
      let there = put-file os files s object works other some_dir absent good in
      let named = normalize_id-object_id object sized in
      let valid = valid_id-object_id object sized in
      let loaded = load-file (put os files s object).1 fresh object there fits_later in
      (fresh, rw some_dir refl, rw (named, get) (rw (some_dir, valid) loaded))
