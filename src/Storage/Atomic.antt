-- ===== src/Storage/Atomic.antt =====
-- internal/storage/store.go: writeAtomic, as the calls of the operating system that change a file.
use ai_po_w_unified_dag.Prelude.{
  List, [], ◌∷◌, ◌++◌, Bool, true, false, not, ◌||◌, Option, none, some, Bytes, if◌then◌else◌,
  lookup, insert, delete, bytes_eq,
}

-- From a path to the bytes of the file.
abbrev pub Files : Type 0
Files = List (Bytes × Bytes)

-- A call that changes files: writing appends to the file.
pub data FileCall : Type 0 where
  create remove : (path : Bytes) → FileCall
  write : (path bytes : Bytes) → FileCall
  rename : (from to : Bytes) → FileCall

unfoldable pub apply : FileCall → Files → Files
apply (create path) files = insert path [] files
apply (remove path) files = delete path files
apply (write path bytes) files = elim (lookup path files) [
  | none ↦ files
  | some held ↦ insert path (held ++ bytes) files
]
apply (rename from to) files = elim (lookup from files) [
  | none ↦ files
  | some held ↦ insert to held (delete from files)
]

unfoldable pub apply_all : List FileCall → Files → Files
apply_all [] files = files
apply_all (call ∷ calls) files = apply_all calls (apply call files)

-- What the calls of writeAtomic return: the path of the temporary file, or nothing on an error; what
-- was written before Write returned an error, or nothing if it returned none; and whether the others
-- return an error. os.Stat may do so for a file that is there.
pub record Os : Type 0 where
  pub temp_path : Option Bytes
  pub partly_written : Option Bytes
  pub sync_fails : Bool
  pub close_fails : Bool
  pub stat_fails : Bool
  pub rename_fails : Bool
  pub remove_fails : Bool

-- The deferred os.Remove.
unfoldable pub deferred : Os → Bytes → List FileCall
deferred os temp = if os.remove_fails then [] else remove temp ∷ []

-- Whether os.Stat returns no error.
unfoldable pub stat : Os → Files → Bytes → Bool
stat os files path = elim (lookup path files) [ none ↦ false | some held ↦ not os.stat_fails ]

-- The temporary file with the whole object.
unfoldable pub written : Bytes → Bytes → List FileCall
written temp object = create temp ∷ write temp object ∷ []

-- writeAtomic from its temporary file on.
unfoldable pub write_temp : Os → Files → Bytes → Bytes → Bytes → List FileCall × Bool
write_temp os files path object temp = elim os.partly_written [
  | some part ↦ (written temp part ++ deferred os temp, false)
  | none ↦
      if os.sync_fails || os.close_fails
      then (written temp object ++ deferred os temp, false)
      else if stat os (apply_all (written temp object) files) path
      then (written temp object ++ deferred os temp, true)
      else if os.rename_fails
      then (written temp object ++ deferred os temp, false)
      else (written temp object ++ (rename temp path ∷ deferred os temp), true)
]

-- The calls that change files, in their order, and whether writeAtomic returns no error.
unfoldable pub write_atomic : Os → Files → Bytes → Bytes → List FileCall × Bool
write_atomic os files path object = elim os.temp_path [
  | none ↦ ([], false)
  | some temp ↦ write_temp os files path object temp
]
