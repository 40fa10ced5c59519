-- ===== src/Orchestrator/RunStore/Order.antt =====
-- The order of use and the cap of the run store (internal/storage/file_run_store.go).
use nexixai_agentos.Prelude.{string_key}
use nexixai_agentos.Prelude.{
  ◌≤◌, String, ◌≡◌, refl, Bool, true, false, Option, none, some, if◌then◌else◌, List, [], ◌∷◌, ◌++◌,
  ltb, is_some, inl, inr, Bool-cases, arith,
}
use nexixai_agentos.Prelude.Dict.{Dict, get, put, remove, size, get-put_self}
use nexixai_agentos.Prelude.Apart.{IsApart, IsApart-put, IsApart-remove}
use nexixai_agentos.Prelude.Listing.{erase, Lists, Lists-erase, Lists-append, remove-put_self}
use nexixai_agentos.Orchestrator.Types.{Run}
use nexixai_agentos.Orchestrator.RunStore.{
  max_runs_in_run_store, FileRunStore, new_file_run_store, touch_order_locked, evict_locked,
  persist_locked, store_locked, create, save, lookup, is_invalid, StoreError, context_done,
  invalid_run, run_exists,
}

-- runOrder lists the key of each run once, and at most 5000 runs are kept.
pub record Inv (s : FileRunStore) : Type 0 where
  pub ordered : Lists s.run_order s.runs
  pub apart : IsApart s.runs
  pub capped : size s.runs ≤ max_runs_in_run_store

-- The key that was used last goes to the end.
pub touched-Lists :
    (runs : Dict String Run) (order : List String) (key : String)
    → is_some (get runs key) ≡ true
    → Lists order runs
    → Lists (erase key order ++ key ∷ []) runs
touched-Lists runs order key h l =
    Lists-append (erase key order) runs key h (Lists-erase order runs key l)

pub stored-Lists :
    (runs : Dict String Run) (order : List String) (key : String) (run : Run)
    → Lists order runs
    → Lists (erase key order ++ key ∷ []) (put runs key run)
stored-Lists runs order key run l =
    Lists-append (erase key order) (put runs key run) key (rw (get-put_self runs key run) refl)
      (rw (remove-put_self runs key run) (Lists-erase order runs key l))

evict_locked-Inv :
    (order : List String) (runs disk : Dict String Run)
    → Lists order runs
    → IsApart runs
    → Inv (evict_locked runs order disk)
unfolding evict_locked
evict_locked-Inv [] runs disk l a = record { ordered = l; apart = a; capped = omega arith }
evict_locked-Inv (k ∷ order) runs disk l a =
    elim (Bool-cases (ltb max_runs_in_run_store (size runs))) [
      | inl e ↦ rw e (evict_locked-Inv order (remove runs k) disk l.1 (IsApart-remove runs k a))
      | inr e ↦ rw e (record { ordered = l; apart = a; capped = ground arith })
    ]

persist_locked-Inv : (s : FileRunStore) (disk_ok : Bool) → Inv s → Inv (persist_locked s disk_ok).0
persist_locked-Inv s true inv = record {
  ordered = inv.ordered;
  apart = inv.apart;
  capped = inv.capped;
}
persist_locked-Inv s false inv = inv

pub store_locked-Inv :
    (s : FileRunStore) (key : String) (run : Run) (disk_ok : Bool)
    → Inv s
    → Inv (store_locked s key run disk_ok).0
unfolding store_locked touch_order_locked
store_locked-Inv s key run disk_ok inv = persist_locked-Inv _ disk_ok (
    evict_locked-Inv (erase key s.run_order ++ key ∷ []) (put s.runs key run) s.disk
      (stored-Lists s.runs s.run_order key run inv.ordered) (IsApart-put s.runs key run inv.apart))

pub touch_order_locked-Inv :
    (s : FileRunStore) (key : String)
    → is_some (get s.runs key) ≡ true
    → Inv s
    → Inv (touch_order_locked s key)
unfolding touch_order_locked
touch_order_locked-Inv s key h inv = record {
  ordered = touched-Lists s.runs s.run_order key h inv.ordered;
  apart = inv.apart;
  capped = inv.capped;
}

-- The calls that change the store, with what the context and the disk do.
pub data Op : Type 0 where
  creates : Bool → Run → Bool → Op
  saves : Bool → Run → Bool → Op
  looks_up : Bool → String → String → Op

module _ (storage_key : String → String → String) where
  abbrev pub step : FileRunStore → Op → FileRunStore
  step s (creates ctx_done run disk_ok) = (create storage_key s ctx_done run disk_ok).0
  step s (saves ctx_done run disk_ok) = (save storage_key s ctx_done run disk_ok).0
  step s (looks_up ctx_done tenant_id run_id) = (lookup storage_key s ctx_done tenant_id run_id).0

  abbrev pub run_all : FileRunStore → List Op → FileRunStore
  run_all s [] = s
  run_all s (op ∷ ops) = run_all (step s op) ops

  pub step-Inv : (s : FileRunStore) (op : Op) → Inv s → Inv (step s op)
  unfolding create save lookup
  step-Inv s (creates ctx_done run disk_ok) inv = grind (arith, store_locked-Inv)
  step-Inv s (saves ctx_done run disk_ok) inv = grind (arith, store_locked-Inv)
  step-Inv s (looks_up ctx_done tenant_id run_id) inv = grind (arith, touch_order_locked-Inv)

  pub run_all-Inv : (ops : List Op) (s : FileRunStore) → Inv s → Inv (run_all s ops)
  run_all-Inv [] s inv = inv
  run_all-Inv (op ∷ ops) s inv = run_all-Inv ops (step s op) (step-Inv s op inv)

abbrev IsOnDisk : FileRunStore → Type 0
IsOnDisk s = size s.disk ≤ max_runs_in_run_store

evict_locked-disk :
    (order : List String) (runs disk : Dict String Run) → (evict_locked runs order disk).disk ≡ disk
unfolding evict_locked
evict_locked-disk [] runs disk = refl
evict_locked-disk (k ∷ order) runs disk =
    ground (arith, evict_locked-disk order (remove runs k) disk)

store_locked-disk :
    (s : FileRunStore) (key : String) (run : Run) (disk_ok : Bool)
    → Inv s
    → IsOnDisk s
    → IsOnDisk (store_locked s key run disk_ok).0
unfolding store_locked touch_order_locked
store_locked-disk s key run true inv h =
    (evict_locked-Inv (erase key s.run_order ++ key ∷ []) (put s.runs key run) s.disk
      (stored-Lists s.runs s.run_order key run inv.ordered)
      (IsApart-put s.runs key run inv.apart)).capped
store_locked-disk s key run false inv h =
    rw (evict_locked-disk (erase key s.run_order ++ key ∷ []) (put s.runs key run) s.disk) h

module _ (storage_key : String → String → String) where
  step-disk : (s : FileRunStore) (op : Op) → Inv s → IsOnDisk s → IsOnDisk (step storage_key s op)
  unfolding create save lookup touch_order_locked
  step-disk s (creates ctx_done run disk_ok) inv h = grind (arith, store_locked-disk)
  step-disk s (saves ctx_done run disk_ok) inv h = grind (arith, store_locked-disk)
  step-disk s (looks_up ctx_done tenant_id run_id) inv h = ground arith

  run_all-disk :
      (ops : List Op) (s : FileRunStore) → Inv s → IsOnDisk s → IsOnDisk (run_all storage_key s ops)
  run_all-disk [] s inv h = h
  run_all-disk (op ∷ ops) s inv h =
      run_all-disk ops (step storage_key s op) (step-Inv storage_key s op inv)
        (step-disk s op inv h)

pub new_file_run_store-Inv : Inv new_file_run_store
unfolding new_file_run_store
new_file_run_store-Inv = record { ordered = omega arith; apart = tt; capped = omega arith }

-- A call that stores a run and answers no error leaves on disk what it leaves in memory.
abbrev pub IsWritten : FileRunStore × Option StoreError → Type 0
IsWritten (s, none) = s.disk ≡ s.runs
IsWritten (s, some error) = Unit

persist_locked-IsWritten :
    (s : FileRunStore) (disk_ok : Bool) → IsWritten (persist_locked s disk_ok)
persist_locked-IsWritten s true = refl
persist_locked-IsWritten s false = tt

store_locked-IsWritten :
    (s : FileRunStore) (key : String) (run : Run) (disk_ok : Bool)
    → IsWritten (store_locked s key run disk_ok)
unfolding store_locked touch_order_locked
store_locked-IsWritten s key run disk_ok = persist_locked-IsWritten _ disk_ok

guarded :
    (c : Bool) (s : FileRunStore) (error : StoreError) (r : FileRunStore × Option StoreError)
    → IsWritten r
    → IsWritten (if c then (s, some error) else r)
guarded true s error r h = tt
guarded false s error r h = h

module _ (storage_key : String → String → String) where
  create-IsWritten :
      (s : FileRunStore) (ctx_done : Bool) (run : Run) (disk_ok : Bool)
      → IsWritten (create storage_key s ctx_done run disk_ok)
  unfolding create
  create-IsWritten s ctx_done run disk_ok =
      let key = storage_key run.tenant_id run.run_id in
      guarded ctx_done s context_done _ (
        guarded (is_invalid run) s invalid_run _ (
          guarded (is_some (get s.runs key)) s run_exists _
            (store_locked-IsWritten s key run disk_ok)))

  save-IsWritten :
      (s : FileRunStore) (ctx_done : Bool) (run : Run) (disk_ok : Bool)
      → IsWritten (save storage_key s ctx_done run disk_ok)
  unfolding save
  save-IsWritten s ctx_done run disk_ok = guarded ctx_done s context_done _ (
      guarded (is_invalid run) s invalid_run _
        (store_locked-IsWritten s (storage_key run.tenant_id run.run_id) run disk_ok))

-- After any calls on a new store, failed ones and failed writes of the file included, the order of
-- use lists the key of each run in memory exactly once, no key is there twice, and at most 5000
-- runs are in memory and at most 5000 on disk. The next Create or Save that answers no error
-- leaves on disk exactly the runs in memory, so a run dropped from memory is then gone from disk.
pub run_all-new_file_run_store :
    (storage_key : String → String → String) (ops : List Op)
    → let s = run_all storage_key new_file_run_store ops in
      Inv s
      × (size s.disk ≤ max_runs_in_run_store)
      × ((ctx_done : Bool)
          → (run : Run) → (disk_ok : Bool)
          → IsWritten (create storage_key s ctx_done run disk_ok)
            × IsWritten (save storage_key s ctx_done run disk_ok))
unfolding new_file_run_store
run_all-new_file_run_store storage_key ops =
    let s = run_all storage_key new_file_run_store ops in
    (
      run_all-Inv storage_key ops _ new_file_run_store-Inv,
      run_all-disk storage_key ops _ new_file_run_store-Inv (omega arith),
      λ ctx_done run disk_ok. (
        create-IsWritten storage_key s ctx_done run disk_ok,
        save-IsWritten storage_key s ctx_done run disk_ok,
      ),
    )
