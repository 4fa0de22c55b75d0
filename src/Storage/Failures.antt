-- ===== src/Storage/Failures.antt =====
-- The errors of Put (internal/storage/store.go) and what they leave behind, and the files when
-- writeAtomic is interrupted.
use ai_po_w_unified_dag.Prelude.{
  refl, ◌∙◌, ap, ◌≡◌, ◌≢◌, ◌⊎◌, inl, inr, ℕ, zero, suc, List, [], ◌∷◌, ◌++◌, Bool, true, false,
  ◌||◌, none, some, Bytes, err, All, length, take, lookup, lookup-insert, ltb, ◌==◌, bytes_eq,
  nat_eq, eq_bytes_iff, Bool-cases, drop, if◌then◌else◌,
}
use ai_po_w_unified_dag.Storage.Atomic.{
  Files, FileCall, create, remove, rename, apply, apply_all, Os, deferred, written, write_atomic,
}
use ai_po_w_unified_dag.Storage.Calls.{
  IsOn, lookup-apply_all, lookup-delete_same, undone-IsOn, lookup-written, lookup-apply_rename,
  apply_all-append,
}
use ai_po_w_unified_dag.Storage.Ends.{
  has_failure, Ends, not_created, undone, kept, renamed, write_atomic-Ends,
}
use ai_po_w_unified_dag.Protocol.{Crypto}
use ai_po_w_unified_dag.Storage.Store.{
  Store, Paths, Error, put, object_id, bad_object_size, write_failed,
}

-- No temporary file is left, unless os.Remove failed.
abbrev pub IsCleared : Os → Files → Type 0
IsCleared os files =
    (os.temp_path ≡ none)
    ⊎ ((temp : Bytes) × (os.temp_path ≡ some temp)
        × ((os.remove_fails ≡ true) ⊎ (lookup temp files ≡ none)))

undone-cleared :
    (os : Os) (files : Files) (temp bytes : Bytes)
    → (os.remove_fails ≡ true)
      ⊎ (lookup temp (apply_all (written temp bytes ++ deferred os temp) files) ≡ none)
unfolding deferred apply_all apply
undone-cleared os files temp bytes = elim (Bool-cases os.remove_fails) [
  | inl lost ↦ inl lost
  | inr good ↦
      let e = apply_all-append (written temp bytes) (remove temp ∷ []) files in
      inr (
        rw (good, deferred)
          (ap (lookup temp) e ∙ lookup-delete_same temp (apply_all (written temp bytes) files)))
]

-- What an error of writeAtomic leaves: other files as they were.
record IsUndone (os : Os) (files after : Files) : Type 0 where
  others : (path : Bytes) → os.temp_path ≢ some path → lookup path after ≡ lookup path files
  failed : has_failure os ≡ true
  cleared : IsCleared os after

Ends-IsUndone :
    (os : Os) (files : Files) (path object : Bytes) (out : List FileCall × Bool)
    → Ends os files path object out
    → out.1 ≡ false
    → IsUndone os files (apply_all out.0 files)
unfolding apply_all
Ends-IsUndone os files path object out (not_created missing bad) h = record {
  others = λ q other. refl;
  failed = bad;
  cleared = inl missing;
}
Ends-IsUndone os files path object out (undone temp bytes made bad) h = record {
  others = λ q other.
      lookup-apply_all (written temp bytes ++ deferred os temp) temp q files
        (undone-IsOn os temp bytes) (λ e. other (made ∙ ap some e));
  failed = bad;
  cleared = inr (temp, made, undone-cleared os files temp bytes);
}
Ends-IsUndone os files path object out (kept temp held made found) h = cc
Ends-IsUndone os files path object out (renamed temp made) h = cc

-- The first calls are on one file.
All-take :
    (temp : Bytes) (k : ℕ) (calls : List FileCall)
    → All (IsOn temp) calls
    → All (IsOn temp) (take k calls)
All-take temp zero calls h = tt
All-take temp (suc k) [] h = tt
All-take temp (suc k) (call ∷ calls) (here, h) = (here, All-take temp k calls h)

-- The file of a name is as it was, or holds the object.
abbrev pub IsOldOrNew : Files → Files → Bytes → Bytes → Type 0
IsOldOrNew files after path object =
    (lookup path after ≡ lookup path files) ⊎ (lookup path after ≡ some object)

renamed-IsOldOrNew :
    (os : Os) (files : Files) (path object temp : Bytes) (k : ℕ)
    → temp ≢ path
    → IsOldOrNew files
        (apply_all (take k (written temp object ++ (rename temp path ∷ deferred os temp))) files)
        path
        object
unfolding written apply_all
renamed-IsOldOrNew os files path object temp zero other = inl refl
renamed-IsOldOrNew os files path object temp (suc zero) other =
    inl (lookup-apply_all (create temp ∷ []) temp path files (refl, tt) other)
renamed-IsOldOrNew os files path object temp (suc (suc zero)) other =
    inl (lookup-apply_all (written temp object) temp path files (refl, (refl, tt)) other)
renamed-IsOldOrNew os files path object temp (suc (suc (suc k))) other =
    let whole = apply_all (written temp object) files in
    let moved = lookup-apply_rename temp path object whole (lookup-written temp object files) in
    inr (
      lookup-apply_all (take k (deferred os temp)) temp path (apply (rename temp path) whole)
        (All-take temp k (deferred os temp) (undone-IsOn os temp object).1.1) other
      ∙ moved)

Ends-IsOldOrNew :
    (os : Os) (files : Files) (path object : Bytes) (k : ℕ) (out : List FileCall × Bool)
    → Ends os files path object out
    → os.temp_path ≢ some path
    → IsOldOrNew files (apply_all (take k out.0) files) path object
unfolding apply_all
Ends-IsOldOrNew os files path object zero out (not_created missing bad) other = inl refl
Ends-IsOldOrNew os files path object (suc k) out (not_created missing bad) other = inl refl
Ends-IsOldOrNew os files path object k out (undone temp bytes made bad) other =
    let calls = written temp bytes ++ deferred os temp in
    inl (
      lookup-apply_all (take k calls) temp path files
        (All-take temp k calls (undone-IsOn os temp bytes)) (λ e. other (made ∙ ap some e)))
Ends-IsOldOrNew os files path object k out (kept temp held made found) other =
    let calls = written temp object ++ deferred os temp in
    inl (
      lookup-apply_all (take k calls) temp path files
        (All-take temp k calls (undone-IsOn os temp object)) (λ e. other (made ∙ ap some e)))
Ends-IsOldOrNew os files path object k out (renamed temp made) other =
    renamed-IsOldOrNew os files path object temp k (λ e. other (made ∙ ap some e))

-- writeAtomic is atomic: if it is interrupted after any number of its calls that change files,
-- whether they return errors or not, the file of the name is as it was before or holds the whole
-- object. The temporary file has another name.
pub write_atomic_interrupted :
    (os : Os) (files : Files) (path object : Bytes) (k : ℕ)
    → os.temp_path ≢ some path
    → IsOldOrNew files (apply_all (take k (write_atomic os files path object).0) files) path object
write_atomic_interrupted os files path object k other =
    Ends-IsOldOrNew os files path object k (write_atomic os files path object)
      (write_atomic-Ends os files path object) other

module _ ⦃p : Paths⦄ ⦃c : Crypto⦄ where
  -- The two ways in which Put fails.
  abbrev pub IsFailure : Os → Files → Store → Bytes → Error → Type 0
  IsFailure os files s object e =
      ((e ≡ bad_object_size)
        × ((length object == 0 || ltb s.max_bytes (length object)) ≡ true)
        × ((put os files s object).0 ≡ s)
        × ((put os files s object).1 ≡ files))
      ⊎ ((e ≡ write_failed)
          × (has_failure os ≡ true)
          × (s.dir ≢ [])
          × (lookup (object_id object) (put os files s object).0.objects ≡ some object)
          × IsCleared os (put os files s object).1)

  -- If Put returns an error, every file but the temporary one is as it was, and either the object
  -- was empty or too large and neither the store nor any file has changed, or a call of the
  -- operating system failed for a store with a directory, the object is in memory all the same and
  -- the temporary file, if it was made, is removed unless that failed too.
  pub put-fails :
      (os : Os) (files : Files) (s : Store) (object path : Bytes) (e : Error)
      → (put os files s object).2 ≡ err e
      → os.temp_path ≢ some path
      → (lookup path (put os files s object).1 ≡ lookup path files) × IsFailure os files s object e
  unfolding put
  put-fails os files s object path e h other =
      elim (Bool-cases (length object == 0 || ltb s.max_bytes (length object))) [
        | inl bad ↦ let k = rw (bad, put) at h in rw (bad, put) (refl, inl (cc k, refl, refl, refl))
        | inr good ↦ elim (Bool-cases (s.dir == [])) [
          | inl memory ↦ let k = rw (good, memory, put) at h in cc k
          | inr some_dir ↦
              let target = p.join s.dir (drop 2 (object_id object)) in
              elim (Bool-cases (write_atomic os files target object).1) [
                | inl done ↦ let k = rw (good, some_dir, done, put) at h in cc k
                | inr lost ↦
                    let u =
                      Ends-IsUndone os files target object (write_atomic os files target object)
                        (write_atomic-Ends os files target object) lost in
                    let k = rw (good, some_dir, lost, put) at h in
                    let found =
                      lookup-insert (object_id object) (object_id object) object s.objects in
                    let key = (eq_bytes_iff (object_id object) (object_id object)).1 refl in
                    rw (good, some_dir, put)
                      (
                        u.others path other,
                        inr (
                          cc k,
                          u.failed,
                          λ none_given.
                              let t = (eq_bytes_iff s.dir []).1 none_given in cc (t, some_dir),
                          rw (key, if◌then◌else◌) at found,
                          u.cleared,
                        ),
                      )
              ]
        ]
      ]
