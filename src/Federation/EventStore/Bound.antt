-- ===== src/Federation/EventStore/Bound.antt =====
-- The cap on the runs of the event store (federation/event_store.go, Ingest).
use nexixai_agentos.Prelude.{string_key, pair_key}
use nexixai_agentos.Prelude.{
  ◌≤◌, String, Option, List, [], ◌∷◌, ltb, is_some, get_or, inl, inr, Bool-cases, arith,
}
use nexixai_agentos.Prelude.Dict.{Dict, get, remove, size}
use nexixai_agentos.Prelude.Listing.{Lists, Lists-put_known, Lists-put_new}
use nexixai_agentos.Federation.EventStore.{
  ℤ, Fields, max_stored_runs, StoreKey, StoredEvents, EventStore, new_event_store, no_events,
  ingest_all, evict_oldest_runs, ingest, run,
}

abbrev pub Inv : EventStore → Type 0
Inv s = Lists s.run_order s.runs × size s.runs ≤ max_stored_runs

evict_oldest_runs-Inv :
    (runs : Dict StoreKey StoredEvents) (order : List StoreKey)
    → Lists order runs
    → Inv (evict_oldest_runs runs order)
unfolding evict_oldest_runs
evict_oldest_runs-Inv runs [] h = (h, omega arith)
evict_oldest_runs-Inv runs (k ∷ order) h = elim (Bool-cases (ltb max_stored_runs (size runs))) [
  | inl e ↦ rw e (evict_oldest_runs-Inv (remove runs k) order h.1)
  | inr e ↦ rw e (h, ground arith)
]

ingest-Inv :
    (atoi : String → Option ℤ) (s : EventStore) (k : StoreKey) (envs : List Fields)
    → Inv s
    → Inv (ingest atoi s k envs).0
unfolding ingest
ingest-Inv atoi s k envs inv =
    let st = (ingest_all atoi (get_or (get s.runs k) no_events) envs).0 in
    elim (Bool-cases (is_some (get s.runs k))) [
      | inl e ↦ rw e (evict_oldest_runs-Inv _ _ (Lists-put_known s.run_order s.runs k st e inv.0))
      | inr e ↦ rw e (evict_oldest_runs-Inv _ _ (Lists-put_new s.run_order s.runs k st e inv.0))
    ]

run-Inv :
    (atoi : String → Option ℤ) (s : EventStore) (calls : List (StoreKey × List Fields))
    → Inv s
    → Inv (run atoi s calls)
run-Inv atoi s [] inv = inv
run-Inv atoi s ((k, envs) ∷ calls) inv =
    run-Inv atoi (ingest atoi s k envs).0 calls (ingest-Inv atoi s k envs inv)

-- After any calls of Ingest on a new store, runOrder lists each stored run exactly once, and at most
-- 500 runs are stored.
pub run-new_event_store-Inv :
    (atoi : String → Option ℤ) (calls : List (StoreKey × List Fields))
    → Inv (run atoi new_event_store calls)
unfolding new_event_store
run-new_event_store-Inv atoi calls = run-Inv atoi _ calls (omega arith, omega arith)
