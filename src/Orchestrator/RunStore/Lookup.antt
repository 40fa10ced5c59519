-- ===== src/Orchestrator/RunStore/Lookup.antt =====
-- What a lookup finds after a save (internal/storage/file_run_store.go).
use nexixai_agentos.Prelude.{string_key}
use nexixai_agentos.Prelude.{
  String, ◌≡◌, ◌⊎◌, refl, ◌∙◌, Bool, true, false, none, some, List, [], ◌∷◌, ◌++◌, ◌==◌, ltb,
  is_some, inl, inr, Bool-cases, arith,
}
use nexixai_agentos.Prelude.Dict.{Dict, get, put, remove, size, get-put, get-put_self, get-remove}
use nexixai_agentos.Prelude.Apart.{IsApart, IsApart-put, IsApart-remove, size-remove-ge}
use nexixai_agentos.Prelude.Listing.{erase, Lists, Lists-last}
use nexixai_agentos.Orchestrator.Types.{Run}
use nexixai_agentos.Orchestrator.RunStore.{
  max_runs_in_run_store, FileRunStore, new_file_run_store, is_invalid, touch_order_locked,
  evict_locked, persist_locked, store_locked, save, lookup,
}
use nexixai_agentos.Orchestrator.RunStore.Order.{
  Inv, Op, run_all, stored-Lists, run_all-new_file_run_store, touch_order_locked-Inv,
}

-- The run that was used last is not evicted.
evict_locked-last :
    (order : List String) (runs disk : Dict String Run) (key : String)
    → Lists (order ++ key ∷ []) runs
    → IsApart runs
    → get (evict_locked runs (order ++ key ∷ []) disk).runs key ≡ get runs key
unfolding evict_locked
evict_locked-last [] runs disk key l a =
    let small : ltb max_runs_in_run_store (size runs) ≡ false =
      ground (arith, size-remove-ge runs key a, l.1) in
    rw small refl
evict_locked-last (k ∷ order) runs disk key l a =
    elim (Bool-cases (ltb max_runs_in_run_store (size runs))) [
      | inl e ↦
          let there = Lists-last order (remove runs k) key l.1 in
          let kept : get (remove runs k) key ≡ get runs key =
            ground (arith, there, get-remove runs k key) in
          rw e
            (evict_locked-last order (remove runs k) disk key l.1 (IsApart-remove runs k a) ∙ kept)
      | inr e ↦ rw e refl
    ]

-- Eviction leaves a run as it is or drops it.
evict_locked-other :
    (order : List String) (runs disk : Dict String Run) (key : String)
    → (get (evict_locked runs order disk).runs key ≡ get runs key)
      ⊎ (get (evict_locked runs order disk).runs key ≡ none)
unfolding evict_locked
evict_locked-other [] runs disk key = inl refl
evict_locked-other (k ∷ order) runs disk key =
    ground (arith, evict_locked-other order (remove runs k) disk key, get-remove runs k key)

pub persist_locked-runs :
    (s : FileRunStore) (disk_ok : Bool) → (persist_locked s disk_ok).0.runs ≡ s.runs
persist_locked-runs s true = refl
persist_locked-runs s false = refl

touched_runs : (s : FileRunStore) (key : String) → (touch_order_locked s key).runs ≡ s.runs
unfolding touch_order_locked
touched_runs s key = refl

pub get-store_locked :
    (s : FileRunStore) (key : String) (run : Run) (disk_ok : Bool)
    → Inv s
    → get (store_locked s key run disk_ok).0.runs key ≡ some run
unfolding store_locked touch_order_locked
get-store_locked s key run disk_ok inv =
    rw
      (persist_locked-runs
        (evict_locked (put s.runs key run) (erase key s.run_order ++ key ∷ []) s.disk) disk_ok)
      (evict_locked-last (erase key s.run_order) (put s.runs key run) s.disk key
          (stored-Lists s.runs s.run_order key run inv.ordered)
          (IsApart-put s.runs key run inv.apart)
        ∙ get-put_self s.runs key run)

pub get-store_locked_other :
    (s : FileRunStore) (key other : String) (run : Run) (disk_ok : Bool)
    → (key == other) ≡ false
    → (get (store_locked s key run disk_ok).0.runs other ≡ get s.runs other)
      ⊎ (get (store_locked s key run disk_ok).0.runs other ≡ none)
unfolding store_locked touch_order_locked
get-store_locked_other s key other run disk_ok ne =
    rw
      (persist_locked-runs
        (evict_locked (put s.runs key run) (erase key s.run_order ++ key ∷ []) s.disk) disk_ok)
      ground
      (
        arith,
        evict_locked-other (erase key s.run_order ++ key ∷ []) (put s.runs key run) s.disk other,
        get-put s.runs key other run,
      )

-- A lookup reads the store, and changes only the order of use.
pub lookup_reads :
    (storage_key : String → String → String) (s : FileRunStore) (run : Run)
    → is_invalid run ≡ false
    → Inv s
    → let r = lookup storage_key s false run.tenant_id run.run_id in
      (r.1 ≡ some (get s.runs (storage_key run.tenant_id run.run_id)))
      × (r.0.runs ≡ s.runs)
      × Inv r.0
unfolding lookup
lookup_reads storage_key s run valid inv =
    let key = storage_key run.tenant_id run.run_id in
    elim (Bool-cases (is_some (get s.runs key))) [
      | inl b ↦ rw (valid, b) (refl, touched_runs s key, touch_order_locked-Inv s key b inv)
      | inr b ↦ rw (valid, b) (refl, refl, inv)
    ]

-- After any calls on a new store, a valid run is saved under a context that is not done. Then a
-- lookup of its tenant and run id finds that very run, even if writing the file failed and
-- whatever was evicted. A lookup of any other tenant and run id with another key finds what it
-- found before, or nothing.
pub lookup-save :
    (storage_key : String → String → String) (ops : List Op) (run : Run) (disk_ok : Bool)
    → is_invalid run ≡ false
    → let s = run_all storage_key new_file_run_store ops in
      let s' = (save storage_key s false run disk_ok).0 in
      ((lookup storage_key s' false run.tenant_id run.run_id).1 ≡ some (some run))
      × ((t r : String)
          → (storage_key run.tenant_id run.run_id ≡ storage_key t r)
            ⊎ ((lookup storage_key s' false t r).1 ≡ (lookup storage_key s false t r).1)
            ⊎ ((lookup storage_key s' false t r).1 ≡ some none))
unfolding save lookup
lookup-save storage_key ops run disk_ok valid =
    let s = run_all storage_key new_file_run_store ops in
    let inv = (run_all-new_file_run_store storage_key ops).0 in
    let key = storage_key run.tenant_id run.run_id in
    let own = get-store_locked s key run disk_ok inv in
    let s' = (store_locked s key run disk_ok).0 in
    (
      rw (valid, own) refl,
      λ t r. elim (Bool-cases (key == storage_key t r)) [
        | inl b ↦ inl ((string_key.same_iff key (storage_key t r)).0 b)
        | inr b ↦ inr (
            rw valid (ground (arith, get-store_locked_other s key (storage_key t r) run disk_ok b)))
      ],
    )
