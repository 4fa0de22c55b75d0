-- ===== src/Tests/Objects.antt =====
-- Runs of the object store and of quantities.
use ai_po_w_unified_dag.Prelude.{
  refl, ◌≡◌, ◌≢◌, All, take, eq_bytes_iff, true, false, List, [], ◌∷◌, Bytes, some, none, ok, err,
  replicate, lookup, arith, length, ◌==◌, eq_bytes, bytes_eq, drop, ◌%◌,
}
use ai_po_w_unified_dag.Prelude.Ints.{pos}
use ai_po_w_unified_dag.Protocol.{Crypto, hash_bytes}
use ai_po_w_unified_dag.Go.Hex.{encode_to_string}
use ai_po_w_unified_dag.Storage.Store.{
  Store, Paths, new, max_of, put, get, object_id, normalize_id, write_failed,
}
use ai_po_w_unified_dag.Storage.Names.{Sha256Sized}
use ai_po_w_unified_dag.Storage.Content.{
  Call, putting, getting, IsContentAddressed, get-IsContentAddressed,
}
use ai_po_w_unified_dag.Storage.Refines.{replies, spec_replies, new-replies, get-new-put}
use ai_po_w_unified_dag.Storage.Failures.{
  put-fails, IsFailure, IsOldOrNew, write_atomic_interrupted,
}
use ai_po_w_unified_dag.Storage.Atomic.{Os, write_atomic, write_temp, apply_all}
use ai_po_w_unified_dag.Storage.Ends.{has_failure}
use ai_po_w_unified_dag.Storage.Kept.{run, get-run-put, PutsNoOther}
use ai_po_w_unified_dag.Engine.Quantity.{quantity, parse_quantity, parse_quantity-quantity}
use ai_po_w_unified_dag.Tests.Demo.{demo}

-- A hash function with 32 bytes.
abbrev sized : Crypto
sized = record demo { sha256 = λ b. replicate 32 (length b % 256) }

instance abbrev flat : Paths
flat = record { join = λ dir name. name }

sized_demo : Sha256Sized sized
sized_demo = record { bytes = λ b. ground arith; size = λ b. refl }

-- No call fails; the disk is full after one byte.
abbrev working : Os
working = record {
  temp_path = some (46 ∷ []);
  partly_written = none;
  sync_fails = false;
  close_fails = false;
  stat_fails = false;
  rename_fails = false;
  remove_fails = false;
}

abbrev full : Os
full = record working { partly_written = some (1 ∷ []) }

abbrev memory : Store
memory = record { objects = []; dir = []; max_bytes = 100 }

abbrev on_disk : Store
on_disk = record { objects = []; dir = 47 ∷ []; max_bytes = 100 }

abbrev thing : Bytes
thing = 1 ∷ 2 ∷ 3 ∷ []

memory-IsContentAddressed : IsContentAddressed ⦃c = sized⦄ memory
unfolding lookup
memory-IsContentAddressed id object h = cc h

abbrev between : List Call
between = getting false [] thing ∷ putting full [] (4 ∷ []) ∷ []

no_other : All (PutsNoOther ⦃c = sized⦄ thing) between
unfolding hash_bytes encode_to_string eq_bytes
no_other = (
  tt,
  (
    λ e.
        let k = (eq_bytes_iff (object_id ⦃c = sized⦄ (4 ∷ [])) (object_id ⦃c = sized⦄ thing)).1 e in
        cc k,
    tt,
  ),
)

get-run-put_example :
    (get ⦃c = sized⦄ false []
      (run ⦃c = sized⦄ between (put ⦃c = sized⦄ full [] memory thing).0)
      (object_id ⦃c = sized⦄ thing)).1
    ≡ some thing
get-run-put_example =
    get-run-put ⦃c = sized⦄ full false [] [] memory thing between sized_demo no_other (omega arith)
      (omega arith)

get-IsContentAddressed_example :
    IsContentAddressed ⦃c = sized⦄ (get ⦃c = sized⦄ false [] memory thing).0
    × ((object : Bytes)
        → (get ⦃c = sized⦄ false [] memory thing).1 ≡ some object
        → object_id ⦃c = sized⦄ object ≡ normalize_id ⦃c = sized⦄ thing)
get-IsContentAddressed_example =
    get-IsContentAddressed ⦃c = sized⦄ false [] memory thing memory-IsContentAddressed

new_demo : new true [] (pos 100) ≡ ok memory
unfolding new max_of eq_bytes
new_demo = refl

new-replies_example :
    replies ⦃c = sized⦄ between memory ≡ spec_replies ⦃c = sized⦄ (max_of (pos 100)) between []
new-replies_example = new-replies ⦃c = sized⦄ true (pos 100) memory between new_demo

no_file :
    lookup {V = Bytes} (flat.join on_disk.dir (drop 2 (object_id ⦃c = sized⦄ thing))) [] ≡ none
unfolding lookup
no_file = refl

some_dir : (on_disk.dir == []) ≡ false
unfolding eq_bytes
some_dir = refl

same_max : on_disk.max_bytes ≡ max_of (pos 100)
unfolding max_of
same_max = refl

other_name : working.temp_path ≢ some (flat.join on_disk.dir (drop 2 (object_id ⦃c = sized⦄ thing)))
unfolding hash_bytes encode_to_string
other_name e = cc e

works : has_failure working ≡ false
unfolding has_failure
works = refl

get-new-put_example :
    (fresh : Store) × (new false on_disk.dir (pos 100) ≡ ok fresh)
    × ((get ⦃c = sized⦄ false
          (put ⦃c = sized⦄ working [] on_disk thing).1
          fresh
          (object_id ⦃c = sized⦄ thing)).1
        ≡ some thing)
get-new-put_example =
    get-new-put ⦃c = sized⦄ working [] on_disk (pos 100) thing sized_demo works other_name some_dir
      no_file (omega arith) (omega arith) same_max

lost_demo : (put ⦃c = sized⦄ full [] on_disk thing).2 ≡ err write_failed
unfolding put eq_bytes write_atomic write_temp
lost_demo = refl

full_name : full.temp_path ≢ some (46 ∷ 47 ∷ [])
full_name e = cc e

put-fails_example :
    (lookup {K = Bytes} {V = Bytes} (46 ∷ 47 ∷ []) (put ⦃c = sized⦄ full [] on_disk thing).1
      ≡ lookup {K = Bytes} {V = Bytes} (46 ∷ 47 ∷ []) [])
    × IsFailure ⦃c = sized⦄ full [] on_disk thing write_failed
put-fails_example =
    put-fails ⦃c = sized⦄ full [] on_disk thing (46 ∷ 47 ∷ []) write_failed lost_demo full_name

write_atomic_interrupted_example :
    IsOldOrNew []
      (apply_all (take 2 (write_atomic working [] (46 ∷ 47 ∷ []) thing).0) [])
      (46 ∷ 47 ∷ [])
      thing
write_atomic_interrupted_example =
    write_atomic_interrupted working [] (46 ∷ 47 ∷ []) thing 2 full_name

parse_quantity-quantity_example : parse_quantity (quantity 30000000) ≡ some 30000000
parse_quantity-quantity_example = parse_quantity-quantity 30000000 (omega arith)
