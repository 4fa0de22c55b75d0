-- ===== src/Storage/Store.antt =====
-- internal/storage/store.go: Store, with New, Put and Get. The files are an association list from a
-- path to bytes; what the calls of the operating system return is an argument of each operation.
use ai_po_w_unified_dag.Prelude.{
  ℕ, ◌*◌, ◌^◌, List, [], ◌∷◌, Bool, true, false, Option, none, some, Bytes, Result, ok, err,
  if◌then◌else◌, length, drop, lookup, insert, ltb, ◌==◌, ◌/=◌, bytes_eq, nat_eq, not, ◌||◌, ◌&&◌,
}
use ai_po_w_unified_dag.Prelude.Ints.{ℤ, pos, negsuc}
use ai_po_w_unified_dag.Go.Hex.{decode_string}
use ai_po_w_unified_dag.Go.Text.{trim_space}
use ai_po_w_unified_dag.Protocol.{Crypto, hash_bytes}
use ai_po_w_unified_dag.AiSeal.Encoding.{to_lower, has_prefix_0x}
use ai_po_w_unified_dag.Storage.Atomic.{Files, Os, write_atomic, apply_all}

pub data Error : Type 0 where
  bad_object_size mkdir_failed write_failed : Error

pub record Store : Type 0 where
  pub objects : List (Bytes × Bytes)
  pub dir : Bytes
  pub max_bytes : ℕ

-- filepath.Join of a directory and a name
pub record Paths : Type 0 where
  pub join : Bytes → Bytes → Bytes

unfoldable pub max_of : ℤ → ℕ
max_of (pos n) = if n == 0 then 16 * 2 ^ 20 else n
max_of (negsuc n) = 16 * 2 ^ 20

-- `mkdir_fails` is whether os.MkdirAll returns an error.
unfoldable pub new : (mkdir_fails : Bool) → Bytes → ℤ → Result Error Store
new mkdir_fails dir max_bytes =
    if dir /= [] && mkdir_fails
    then err mkdir_failed
    else ok (record { objects = []; dir = dir; max_bytes = max_of max_bytes })

unfoldable pub valid_id : Bytes → Bool
valid_id id =
    if length id /= 66 || not (has_prefix_0x id)
    then false
    else elim (decode_string (drop 2 id)) [ none ↦ false | some b ↦ true ]

module _ ⦃c : Crypto⦄ where
  -- The name of an object.
  abbrev pub object_id : Bytes → Bytes
  object_id = hash_bytes

  unfoldable pub normalize_id : Bytes → Bytes
  normalize_id id = let v = to_lower (trim_space id) in if has_prefix_0x v then v else 48 ∷ 120 ∷ v

module _ ⦃p : Paths⦄ ⦃c : Crypto⦄ where
  unfoldable pub put : Os → Files → Store → Bytes → Store × Files × Result Error Bytes
  put os files s object =
      let id = object_id object in
      let kept = record s { objects = insert id object s.objects } in
      let (calls, done) = write_atomic os files (p.join s.dir (drop 2 id)) object in
      if length object == 0 || ltb s.max_bytes (length object)
      then (s, files, err bad_object_size)
      else if s.dir == []
      then (kept, files, ok id)
      else (kept, apply_all calls files, if done then ok id else err write_failed)

  -- os.ReadFile: `fails` is whether it returns an error for a file that is there.
  unfoldable pub read_file : (fails : Bool) → Files → Bytes → Option Bytes
  read_file fails files path = if fails then none else lookup path files

  -- The part of Get after the map: a file is read, and checked against its name.
  unfoldable pub load : (fails : Bool) → Files → Store → Bytes → Store × Option Bytes
  load fails files s id = elim (read_file fails files (p.join s.dir (drop 2 id))) [
    | none ↦ (s, none)
    | some object ↦
        if ltb s.max_bytes (length object) || id /= object_id object
        then (s, none)
        else (record s { objects = insert id object s.objects }, some object)
  ]

  unfoldable pub get : (fails : Bool) → Files → Store → Bytes → Store × Option Bytes
  get fails files s given =
      let id = normalize_id given in
      elim (lookup id s.objects) [
        | some object ↦ (s, some object)
        | none ↦ if s.dir == [] || not (valid_id id) then (s, none) else load fails files s id
      ]
