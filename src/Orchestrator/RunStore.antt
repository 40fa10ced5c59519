-- ===== src/Orchestrator/RunStore.antt =====
-- internal/storage/file_run_store.go. `storage_key` stands for the path that filepath.Join makes of a
-- tenant and a run. A context that is done is the argument `ctx_done`; `disk_ok` says whether
-- writing the file succeeds. The file is what the last successful write left.
pub mod Order
pub mod Lookup
pub mod Known
use nexixai_agentos.Prelude.{string_key}
use nexixai_agentos.Prelude.{
  ℕ, ◌-◌, String, Bool, true, false, not, Option, none, some, List, [], ◌∷◌, ◌++◌, ◌==◌, ◌&&◌, ◌||◌,
  if◌then◌else◌, ltb, leb, eqb, is_some, length, take, select,
}
use nexixai_agentos.Prelude.Dict.{Dict, get, put, remove, size}
use nexixai_agentos.Prelude.Listing.{erase}
use nexixai_agentos.Prelude.Sort.{sort_slice}
use nexixai_agentos.Orchestrator.Types.{Run}

abbrev pub max_runs_in_run_store : ℕ
max_runs_in_run_store = 5000

pub record FileRunStore : Type 0 where
  pub runs : Dict String Run
  pub run_order : List String
  pub disk : Dict String Run

pub data StoreError : Type 0 where
  context_done : StoreError
  run_exists : StoreError
  invalid_run : StoreError
  persist_failed : StoreError

unfoldable pub new_file_run_store : FileRunStore
new_file_run_store = record { runs = []; run_order = []; disk = [] }

abbrev pub is_invalid : Run → Bool
is_invalid run = run.tenant_id == "" || run.run_id == ""

unfoldable pub touch_order_locked : FileRunStore → String → FileRunStore
touch_order_locked s key = record s { run_order = erase key s.run_order ++ key ∷ [] }

unfoldable pub evict_locked : Dict String Run → List String → Dict String Run → FileRunStore
evict_locked runs [] disk = record { runs = runs; run_order = []; disk = disk }
evict_locked runs (oldest ∷ order) disk =
    let rest = evict_locked (remove runs oldest) order disk in
    if ltb max_runs_in_run_store (size runs)
    then rest
    else record { runs = runs; run_order = oldest ∷ order; disk = disk }

abbrev pub persist_locked : FileRunStore → Bool → FileRunStore × Option StoreError
persist_locked s true = (record s { disk = s.runs }, none)
persist_locked s false = (s, some persist_failed)

-- `s.runs[key] = run`, then the order, the cap and the file.
unfoldable pub store_locked : FileRunStore → String → Run → Bool → FileRunStore × Option StoreError
store_locked s key run disk_ok =
    let touched = touch_order_locked (record s { runs = put s.runs key run }) key in
    persist_locked (evict_locked touched.runs touched.run_order touched.disk) disk_ok

abbrev load_all : Dict String Run → List String → Dict String Run → Dict String Run × List String
load_all runs order [] = (runs, order)
load_all runs order ((k, v) ∷ persisted) = load_all (put runs k v) (order ++ k ∷ []) persisted

-- What load makes of a file.
unfoldable pub load : Dict String Run → FileRunStore
load persisted = let (runs, order) = load_all [] [] persisted in evict_locked runs order persisted

abbrev newer : Run → Run → Bool
newer a b = ltb b.created_at a.created_at

abbrev pub values : Dict String Run → List Run
values [] = []
values ((k, v) ∷ m) = v ∷ values m

abbrev find : (Run → Bool) → List Run → Option Run
find p [] = none
find p (r ∷ rs) = if p r then some r else find p rs

-- The runs behind the one with this id; nothing if there is none.
abbrev behind : String → List Run → List Run
behind id [] = []
behind id (r ∷ rs) = if r.run_id == id then rs else behind id rs

module _ (storage_key : String → String → String) where
  unfoldable pub create : FileRunStore → Bool → Run → Bool → FileRunStore × Option StoreError
  create s ctx_done run disk_ok =
      let key = storage_key run.tenant_id run.run_id in
      if ctx_done
      then (s, some context_done)
      else if is_invalid run
      then (s, some invalid_run)
      else if is_some (get s.runs key)
      then (s, some run_exists)
      else store_locked s key run disk_ok

  unfoldable pub save : FileRunStore → Bool → Run → Bool → FileRunStore × Option StoreError
  save s ctx_done run disk_ok =
      if ctx_done
      then (s, some context_done)
      else if is_invalid run
      then (s, some invalid_run)
      else store_locked s (storage_key run.tenant_id run.run_id) run disk_ok

  -- None for a context that is done; else whether the run is there.
  unfoldable pub lookup : FileRunStore → Bool → String → String → FileRunStore × Option (Option Run)
  lookup s ctx_done tenant_id run_id =
      let key = storage_key tenant_id run_id in
      let found = get s.runs key in
      if ctx_done
      then (s, none)
      else if tenant_id == "" || run_id == ""
      then (s, some none)
      else (if is_some found then touch_order_locked s key else s, some found)

unfoldable pub get_by_idempotency_key : FileRunStore → Bool → String → String → Option (Option Run)
get_by_idempotency_key s ctx_done tenant_id key =
    if ctx_done
    then none
    else if tenant_id == "" || key == ""
    then some none
    else some
        (find (λ (r : Run). r.tenant_id == tenant_id && r.idempotency_key == key) (values s.runs))

unfoldable pub list : FileRunStore → Bool → String → Option (List Run)
list s ctx_done tenant_id =
    if ctx_done
    then none
    else if tenant_id == ""
    then some []
    else some (sort_slice newer (select (λ (r : Run). r.tenant_id == tenant_id) (values s.runs)))

abbrev page_size : ℕ → ℕ
page_size limit = if leb limit 0 then 50 else if ltb 200 limit then 200 else limit

unfoldable pub list_by_agent :
    FileRunStore → Bool → String → String → ℕ → String → Option (List Run)
list_by_agent s ctx_done tenant_id agent_id limit after =
    let runs =
      sort_slice newer (
        select (λ (r : Run). r.tenant_id == tenant_id && r.agent_id == agent_id) (values s.runs)) in
    if ctx_done
    then none
    else if tenant_id == "" || agent_id == ""
    then some []
    else some (take (page_size limit) (if after == "" then runs else behind after runs))

unfoldable pub list_child_runs : FileRunStore → Bool → String → String → Option (List Run)
list_child_runs s ctx_done tenant_id parent =
    if ctx_done
    then none
    else if tenant_id == "" || parent == ""
    then some []
    else some (
        select
          (λ (r : Run).
            r.tenant_id == tenant_id && (r.retry_of == parent || r.parent_run_id == parent))
          (values s.runs))
