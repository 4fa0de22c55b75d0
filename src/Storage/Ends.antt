-- ===== src/Storage/Ends.antt =====
-- How writeAtomic ends (internal/storage/store.go).
use ai_po_w_unified_dag.Prelude.{
  refl, ◌∙◌, ◌≡◌, ◌≢◌, inl, inr, List, [], ◌∷◌, ◌++◌, Bool, true, false, ◌||◌, none, some, Bytes,
  lookup, bytes_eq, nat_eq, Bool-cases, Option-cases, sym, arith, subst, ap,
}
use ai_po_w_unified_dag.Storage.Atomic.{
  Files, FileCall, rename, apply, apply_all, Os, deferred, stat, written, write_temp, write_atomic,
}
use ai_po_w_unified_dag.Storage.Calls.{
  lookup-apply_all, deferred-IsOn, lookup-written, lookup-apply_rename, apply_all-append,
}

-- Whether a call returns an error that writeAtomic passes on.
unfoldable pub has_failure : Os → Bool
has_failure os = elim os.temp_path [
  | none ↦ true
  | some temp ↦ elim os.partly_written [
    | some part ↦ true
    | none ↦ os.sync_fails || os.close_fails || os.rename_fails
  ]
]

-- How writeAtomic ends: with an error that it passes on, when no temporary file was made or when it
-- was made and removed; or else without one, when there is a file of the name or when the temporary
-- file is renamed.
pub data Ends (os : Os) (files : Files) (path object : Bytes) : List FileCall × Bool → Type 0 where
  not_created : os.temp_path ≡ none → has_failure os ≡ true → Ends os files path object ([], false)
  undone :
      (temp bytes : Bytes)
      → os.temp_path ≡ some temp
      → has_failure os ≡ true
      → Ends os files path object (written temp bytes ++ deferred os temp, false)
  kept :
      (temp held : Bytes)
      → os.temp_path ≡ some temp
      → lookup path (apply_all (written temp object) files) ≡ some held
      → Ends os files path object (written temp object ++ deferred os temp, true)
  renamed :
      (temp : Bytes)
      → os.temp_path ≡ some temp
      → Ends os files path object
          (written temp object ++ (rename temp path ∷ deferred os temp), true)

stat-found :
    (os : Os) (files : Files) (path : Bytes)
    → stat os files path ≡ true
    → (held : Bytes) × (lookup path files ≡ some held)
unfolding stat
stat-found os files path h = elim (Option-cases (lookup path files)) [
  | inl missing ↦ let k = rw (missing, stat) at h in cc k
  | inr found ↦ found
]

write_temp-Ends :
    (os : Os) (files : Files) (path object temp : Bytes)
    → os.temp_path ≡ some temp
    → os.partly_written ≡ none
    → Ends os files path object (write_temp os files path object temp)
unfolding write_temp has_failure deferred
write_temp-Ends os files path object temp made whole =
    let fails : has_failure os ≡ (os.sync_fails || os.close_fails || os.rename_fails) =
      rw (made, has_failure) (rw (whole, has_failure) refl) in
    elim (Bool-cases (os.sync_fails || os.close_fails)) [
      | inl lost ↦
          let e : write_temp os files path object temp
              ≡ (written temp object ++ deferred os temp, false) =
            rw (whole, write_temp) (rw lost refl) in
          subst (Ends os files path object) (sym e)
            (undone temp object made (ground (arith, fails)))
      | inr closed ↦ elim (Bool-cases (stat os (apply_all (written temp object) files) path)) [
        | inl there ↦
            let (held, found) = stat-found os (apply_all (written temp object) files) path there in
            let e : write_temp os files path object temp
                ≡ (written temp object ++ deferred os temp, true) =
              rw (whole, write_temp) (rw (closed, there) refl) in
            subst (Ends os files path object) (sym e) (kept temp held made found)
        | inr absent ↦ elim (Bool-cases os.rename_fails) [
          | inl lost ↦
              let e : write_temp os files path object temp
                  ≡ (written temp object ++ deferred os temp, false) =
                rw (whole, write_temp) (rw (closed, absent, lost) refl) in
              subst (Ends os files path object) (sym e)
                (undone temp object made (ground (arith, fails)))
          | inr moved ↦
              let e : write_temp os files path object temp
                  ≡ (written temp object ++ (rename temp path ∷ deferred os temp), true) =
                rw (whole, write_temp) (rw (closed, absent, moved) refl) in
              subst (Ends os files path object) (sym e) (renamed temp made)
        ]
      ]
    ]

pub write_atomic-Ends :
    (os : Os) (files : Files) (path object : Bytes)
    → Ends os files path object (write_atomic os files path object)
unfolding write_atomic write_temp has_failure deferred
write_atomic-Ends os files path object = elim (Option-cases os.temp_path) [
  | inl missing ↦
      let e : write_atomic os files path object ≡ ([], false) = rw (missing, write_atomic) refl in
      subst (Ends os files path object) (sym e)
        (not_created missing (rw (missing, has_failure) refl))
  | inr (temp, made) ↦
      let start : write_atomic os files path object ≡ write_temp os files path object temp =
        simp (made, write_atomic) in
      subst (Ends os files path object) (sym start) (elim (Option-cases os.partly_written) [
        | inr (part, short) ↦
            let e : write_temp os files path object temp
                ≡ (written temp part ++ deferred os temp, false) =
              rw (short, write_temp) refl in
            subst (Ends os files path object) (sym e)
              (undone temp part made (rw (made, has_failure) (rw (short, has_failure) refl)))
        | inl whole ↦ write_temp-Ends os files path object temp made whole
      ])
]

renamed-stored :
    (os : Os) (whole : Files) (path object temp : Bytes)
    → lookup temp whole ≡ some object
    → temp ≢ path
    → lookup path (apply_all (rename temp path ∷ deferred os temp) whole) ≡ some object
unfolding apply_all
renamed-stored os whole path object temp found other =
    lookup-apply_all (deferred os temp) temp path (apply (rename temp path) whole)
      (deferred-IsOn os temp) other
    ∙ lookup-apply_rename temp path object whole found

written-stored :
    (os : Os) (files : Files) (path object : Bytes) (out : List FileCall × Bool)
    → Ends os files path object out
    → has_failure os ≡ false
    → os.temp_path ≢ some path
    → lookup path files ≡ none
    → lookup path (apply_all out.0 files) ≡ some object
unfolding written
written-stored os files path object out (not_created missing bad) works other absent = cc
written-stored os files path object out (undone temp bytes made bad) works other absent = cc
written-stored os files path object out (kept temp held made found) works other absent =
    let same =
      lookup-apply_all (written temp object) temp path files (refl, (refl, tt))
        (λ e. other (made ∙ ap some e)) in
    cc (same, found, absent)
written-stored os files path object out (renamed temp made) works other absent =
    let whole = apply_all (written temp object) files in
    let later = rename temp path ∷ deferred os temp in
    let split = apply_all-append (written temp object) later files in
    ap (lookup path) split
    ∙ renamed-stored os whole path object temp (lookup-written temp object files)
        (λ e. other (made ∙ ap some e))

-- With no error that is passed on, and no file of the name before, the file holds the object.
pub write_atomic-stored :
    (os : Os) (files : Files) (path object : Bytes)
    → has_failure os ≡ false
    → os.temp_path ≢ some path
    → lookup path files ≡ none
    → lookup path (apply_all (write_atomic os files path object).0 files) ≡ some object
write_atomic-stored os files path object works other absent =
    written-stored os files path object (write_atomic os files path object)
      (write_atomic-Ends os files path object) works other absent
