-- ===== src/Orchestrator/RunStore/Known.antt =====
-- Saving runs that the store knows already (internal/storage/file_run_store.go).
use nexixai_agentos.Prelude.{string_key}
use nexixai_agentos.Prelude.{
  ◌≤◌, String, ◌≡◌, ◌⊎◌, refl, sym, ◌∙◌, subst, ap, Bool, true, false, Option, none, some, List, [],
  ◌∷◌, ◌++◌, ◌==◌, if◌then◌else◌, ◌||◌, ltb, is_some, get_or, inl, inr, Bool-cases, Option-cases,
  ==_refl, ◌&&◌, All, All-select, arith,
}
use nexixai_agentos.Prelude.Dict.{Dict, get, put, size, get-put, size-put}
use nexixai_agentos.Prelude.Apart.{IsApart}
use nexixai_agentos.Prelude.Listing.{erase}
use nexixai_agentos.Orchestrator.Types.{Run}
use nexixai_agentos.Orchestrator.RunStore.{
  max_runs_in_run_store, FileRunStore, is_invalid, touch_order_locked, evict_locked, store_locked,
  save, lookup, values, list_child_runs, new_file_run_store,
}
use nexixai_agentos.Orchestrator.RunStore.Order.{
  Inv, looks_up, step-Inv, store_locked-Inv, new_file_run_store-Inv,
}
use nexixai_agentos.Orchestrator.RunStore.Lookup.{
  persist_locked-runs, get-store_locked, get-store_locked_other,
}

-- While there is room, nothing is evicted.
evict_locked-room :
    (order : List String) (runs disk : Dict String Run)
    → size runs ≤ max_runs_in_run_store
    → (evict_locked runs order disk).runs ≡ runs
unfolding evict_locked
evict_locked-room [] runs disk h = refl
evict_locked-room (k ∷ order) runs disk h =
    let room : ltb max_runs_in_run_store (size runs) ≡ false = ground arith in rw room refl

-- Storing a run under a key that is there changes that run alone.
pub get-store_locked_known :
    (s : FileRunStore) (key k : String) (run : Run) (disk_ok : Bool)
    → Inv s
    → is_some (get s.runs key) ≡ true
    → get (store_locked s key run disk_ok).0.runs k ≡ (if key == k then some run else get s.runs k)
unfolding store_locked touch_order_locked
get-store_locked_known s key k run disk_ok inv known =
    let room : size (put s.runs key run) ≤ max_runs_in_run_store =
      ground (arith, size-put s.runs key run, inv.capped) in
    rw
      (
        persist_locked-runs
            (evict_locked (put s.runs key run) (erase key s.run_order ++ key ∷ []) s.disk) disk_ok,
        evict_locked-room (erase key s.run_order ++ key ∷ []) (put s.runs key run) s.disk room,
      )
      (get-put s.runs key k run)

get-cons :
    (m : Dict String Run) (j k : String) (v r : Run)
    → get m j ≡ none
    → get m k ≡ some r
    → get ((j, v) ∷ m) k ≡ some r
unfolding get
get-cons m j k v r n h = ground (arith, string_key.same_iff j k)

module _ (storage_key : String → String → String) where
  -- The store is in order, and has each run under its own key.
  pub record IsKeyed (s : FileRunStore) : Type 0 where
    pub ordered : Inv s
    pub keyed :
        (k : String) (r : Run) → get s.runs k ≡ some r → storage_key r.tenant_id r.run_id ≡ k

  abbrev pub IsStored : Dict String Run → Run → Type 0
  IsStored m r = get m (storage_key r.tenant_id r.run_id) ≡ some r

  -- A save refuses the run, or stores it.
  pub save-cases :
      (s : FileRunStore) (ctx_done : Bool) (run : Run) (disk_ok : Bool)
      → ((save storage_key s ctx_done run disk_ok).0 ≡ s)
          × (is_some (save storage_key s ctx_done run disk_ok).1 ≡ true)
        ⊎ (save storage_key s ctx_done run disk_ok
            ≡ store_locked s (storage_key run.tenant_id run.run_id) run disk_ok)
  unfolding save
  save-cases s ctx_done run disk_ok = elim (Bool-cases ctx_done) [
    | inl b ↦ rw b (inl (refl, refl))
    | inr b ↦ elim (Bool-cases (is_invalid run)) [
      | inl i ↦ rw (b, i) (inl (refl, refl))
      | inr i ↦ rw (b, i) (inr refl)
    ]
  ]

  pub lookup-runs :
      (s : FileRunStore) (ctx_done : Bool) (tenant_id run_id : String)
      → (lookup storage_key s ctx_done tenant_id run_id).0.runs ≡ s.runs
  unfolding lookup touch_order_locked
  lookup-runs s ctx_done tenant_id run_id = ground arith

  abbrev pub IsFound : String → FileRunStore × Option (Option Run) → Type 0
  IsFound key (s, some (some run)) = get s.runs key ≡ some run
  IsFound key (s, some none) = Unit
  IsFound key (s, none) = Unit

  -- What holds of each run under its key holds of all of them.
  values-All :
      (P : Run → Type 0) (m : Dict String Run)
      → ((k : String) (r : Run) → get m k ≡ some r → P r)
      → IsApart m
      → All P (values m)
  unfolding get
  values-All P [] h a = tt
  values-All P ((j, v) ∷ m) h a =
      (h j v (rw (==_refl j) refl), values-All P m (λ k r e. h k r (get-cons m j k v r a.0 e)) a.1)

  pub list_child_runs-IsStored :
      (s : FileRunStore) (ctx_done : Bool) (tenant_id parent : String)
      → IsKeyed s
      → All (IsStored s.runs) (get_or (list_child_runs s ctx_done tenant_id parent) [])
  unfolding list_child_runs
  list_child_runs-IsStored s ctx_done tenant_id parent ok =
      let all =
        values-All (IsStored s.runs) s.runs
          (λ k r e. subst (λ j. get s.runs j ≡ some r) (sym (ok.keyed k r e)) e) ok.ordered.apart in
      elim (Bool-cases ctx_done) [
        | inl b ↦ rw b tt
        | inr b ↦ elim (Bool-cases (tenant_id == "" || parent == "")) [
          | inl e ↦ rw (b, e) tt
          | inr e ↦
              rw (b, e)
                (All-select (IsStored s.runs)
                  (λ (r : Run).
                    r.tenant_id == tenant_id && (r.retry_of == parent || r.parent_run_id == parent))
                  (values s.runs) all)
        ]
      ]

  pub lookup-IsFound :
      (s : FileRunStore) (ctx_done : Bool) (tenant_id run_id : String)
      → IsFound (storage_key tenant_id run_id) (lookup storage_key s ctx_done tenant_id run_id)
  unfolding lookup touch_order_locked
  lookup-IsFound s ctx_done tenant_id run_id =
      let key = storage_key tenant_id run_id in
      elim (Bool-cases ctx_done) [
        | inl b ↦ rw b tt
        | inr b ↦ elim (Bool-cases (tenant_id == "" || run_id == "")) [
          | inl e ↦ rw (b, e) tt
          | inr e ↦ elim (Option-cases (get s.runs key)) [
            | inl n ↦ rw (b, e, n) tt
            | inr (run, n) ↦ rw (b, e, n) n
          ]
        ]
      ]

  pub lookup-IsKeyed :
      (s : FileRunStore) (ctx_done : Bool) (tenant_id run_id : String)
      → IsKeyed s
      → IsKeyed (lookup storage_key s ctx_done tenant_id run_id).0
  lookup-IsKeyed s ctx_done tenant_id run_id ok = record {
    ordered = step-Inv storage_key s (looks_up ctx_done tenant_id run_id) ok.ordered;
    keyed = λ k r e.
        ok.keyed k r (subst (λ m. get m k ≡ some r) (lookup-runs s ctx_done tenant_id run_id) e);
  }

  -- A store where all saves went through is keyed; eviction keeps it so.
  store_locked-IsKeyed :
      (s : FileRunStore) (run : Run) (disk_ok : Bool)
      → IsKeyed s
      → IsKeyed (store_locked s (storage_key run.tenant_id run.run_id) run disk_ok).0
  store_locked-IsKeyed s run disk_ok ok =
      let key = storage_key run.tenant_id run.run_id in
      let own = get-store_locked s key run disk_ok ok.ordered in
      record {
        ordered = store_locked-Inv s key run disk_ok ok.ordered;
        keyed = λ k r e. elim (Bool-cases (key == k)) [
          | inl b ↦
              let same = (string_key.same_iff key k).0 b in
              let there = ap (λ j. get (store_locked s key run disk_ok).0.runs j) same in
              ground (arith, own, there, same, e)
          | inr b ↦ elim (get-store_locked_other s key k run disk_ok b) [
            | inl same ↦ ok.keyed k r (sym same ∙ e)
            | inr gone ↦ cc
          ]
        ];
      }

  pub save-IsKeyed :
      (s : FileRunStore) (ctx_done : Bool) (run : Run) (disk_ok : Bool)
      → IsKeyed s
      → IsKeyed (save storage_key s ctx_done run disk_ok).0
  save-IsKeyed s ctx_done run disk_ok ok = elim (save-cases s ctx_done run disk_ok) [
    | inl e ↦ rw e.0 ok
    | inr e ↦ rw e (store_locked-IsKeyed s run disk_ok ok)
  ]

pub new_file_run_store-IsKeyed :
    (storage_key : String → String → String) → IsKeyed storage_key new_file_run_store
unfolding new_file_run_store get
new_file_run_store-IsKeyed storage_key = record {
  ordered = new_file_run_store-Inv;
  keyed = λ k r e. absurd (cc);
}
