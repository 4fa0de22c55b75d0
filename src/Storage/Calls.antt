-- ===== src/Storage/Calls.antt =====
-- The calls of the operating system in writeAtomic (internal/storage/store.go): what they do to the files.
use ai_po_w_unified_dag.Prelude.{
  refl, ◌∙◌, ◌≡◌, ◌≢◌, inl, inr, List, [], ◌∷◌, ◌++◌, none, some, Bytes, All, lookup, lookup-insert,
  lookup-delete, ◌==◌, bytes_eq, nat_eq, eq_bytes_iff, Bool-cases, Option-cases, if◌then◌else◌,
  delete, sym, insert,
}
use ai_po_w_unified_dag.Storage.Atomic.{
  Files, FileCall, create, remove, write, rename, apply, apply_all, Os, deferred, written,
}

-- The call changes no other file than this.
abbrev pub IsOn : Bytes → FileCall → Type 0
IsOn temp (create path) = path ≡ temp
IsOn temp (remove path) = path ≡ temp
IsOn temp (write path bytes) = path ≡ temp
IsOn temp (rename from to) = ⊥

pub lookup-insert_other :
    (key sought value : Bytes) (files : Files)
    → key ≢ sought
    → lookup sought (insert key value files) ≡ lookup sought files
lookup-insert_other key sought value files other =
    let e = lookup-insert key sought value files in
    elim (Bool-cases (key == sought)) [
      | inl same ↦ absurd (other ((eq_bytes_iff key sought).0 same))
      | inr apart ↦ rw (apart, if◌then◌else◌) at e
    ]

lookup-delete_other :
    (key sought : Bytes) (files : Files)
    → key ≢ sought
    → lookup sought (delete key files) ≡ lookup sought files
lookup-delete_other key sought files other =
    let e = lookup-delete key sought files in
    elim (Bool-cases (key == sought)) [
      | inl same ↦ absurd (other ((eq_bytes_iff key sought).0 same))
      | inr apart ↦ rw (apart, if◌then◌else◌) at e
    ]

pub lookup-insert_same :
    (key value : Bytes) (files : Files) → lookup key (insert key value files) ≡ some value
lookup-insert_same key value files =
    let same = (eq_bytes_iff key key).1 refl in
    rw (same, if◌then◌else◌) at (lookup-insert key key value files)

pub lookup-delete_same : (key : Bytes) (files : Files) → lookup key (delete key files) ≡ none
lookup-delete_same key files =
    let same = (eq_bytes_iff key key).1 refl in
    rw (same, if◌then◌else◌) at (lookup-delete key key files)

lookup-apply :
    (call : FileCall) (temp path : Bytes) (files : Files)
    → IsOn temp call
    → temp ≢ path
    → lookup path (apply call files) ≡ lookup path files
unfolding apply
lookup-apply (create p) temp path files on other =
    lookup-insert_other p path [] files (λ e. other (sym on ∙ e))
lookup-apply (remove p) temp path files on other =
    lookup-delete_other p path files (λ e. other (sym on ∙ e))
lookup-apply (write p bytes) temp path files on other = elim (Option-cases (lookup p files)) [
  | inl missing ↦ rw (missing, apply) refl
  | inr (held, found) ↦
      rw (found, apply) (lookup-insert_other p path (held ++ bytes) files (λ e. other (sym on ∙ e)))
]
lookup-apply (rename from to) temp path files on other = elim on [ ]

pub lookup-apply_all :
    (calls : List FileCall) (temp path : Bytes) (files : Files)
    → All (IsOn temp) calls
    → temp ≢ path
    → lookup path (apply_all calls files) ≡ lookup path files
unfolding apply_all
lookup-apply_all [] temp path files on other = refl
lookup-apply_all (call ∷ calls) temp path files (here, on) other =
    lookup-apply_all calls temp path (apply call files) on other
    ∙ lookup-apply call temp path files here other

pub deferred-IsOn : (os : Os) (temp : Bytes) → All (IsOn temp) (deferred os temp)
unfolding deferred
deferred-IsOn os temp = elim (Bool-cases os.remove_fails) [
  | inl lost ↦ rw lost tt
  | inr good ↦ rw good (refl, tt)
]

pub undone-IsOn :
    (os : Os) (temp bytes : Bytes) → All (IsOn temp) (written temp bytes ++ deferred os temp)
unfolding written
undone-IsOn os temp bytes = (refl, (refl, deferred-IsOn os temp))

lookup-apply_write :
    (path held bytes : Bytes) (files : Files)
    → lookup path files ≡ some held
    → lookup path (apply (write path bytes) files) ≡ some (held ++ bytes)
unfolding apply
lookup-apply_write path held bytes files found =
    rw (found, apply) (lookup-insert_same path (held ++ bytes) files)

-- The temporary file when the whole object was written to it.
pub lookup-written :
    (temp object : Bytes) (files : Files)
    → lookup temp (apply_all (written temp object) files) ≡ some object
unfolding written apply_all apply
lookup-written temp object files =
    lookup-apply_write temp [] object (insert temp [] files) (lookup-insert_same temp [] files)

pub lookup-apply_rename :
    (from to object : Bytes) (files : Files)
    → lookup from files ≡ some object
    → lookup to (apply (rename from to) files) ≡ some object
unfolding apply
lookup-apply_rename from to object files found =
    rw (found, apply) (lookup-insert_same to object (delete from files))

pub apply_all-append :
    (calls more : List FileCall) (files : Files)
    → apply_all (calls ++ more) files ≡ apply_all more (apply_all calls files)
unfolding apply_all
apply_all-append [] more files = refl
apply_all-append (call ∷ calls) more files = apply_all-append calls more (apply call files)
