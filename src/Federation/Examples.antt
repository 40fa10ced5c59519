-- ===== src/Federation/Examples.antt =====
-- The theorems on federation at concrete inputs.
use nexixai_agentos.Prelude.{string_key, pair_key}
use nexixai_agentos.Prelude.{ℕ, String, ◌≡◌, refl, Option, none, some, List, [], ◌∷◌, ◌++◌, select}
use nexixai_agentos.Prelude.Dict.{get, put}
use nexixai_agentos.Federation.EventStore.{
  ℤ, pos, string, int, object, Fields, no_fields, field, StoreKey, new_event_store, run, list,
  list_from_sequence, sequence_of, at, event_sequence, ingest, ingest_one, ingest_all,
  evict_oldest_runs,
}
use nexixai_agentos.Federation.EventStore.Bound.{Inv, run-new_event_store-Inv}
use nexixai_agentos.Federation.EventStore.Order.{is_unsequenced, last_of}
use nexixai_agentos.Federation.EventStore.Resume.{list_from_sequence_resumes}
use nexixai_agentos.Federation.ForwardIndex.{new_forward_index, target, persisted, load}
use nexixai_agentos.Federation.ForwardIndex.Bound.{Call, run as run_index}
use nexixai_agentos.Federation.ForwardIndex.Restart.{restamped, get-load-persisted}
use nexixai_agentos.Federation.PeerRegistry.{PeerInfo, PeersFile, failed}
use nexixai_agentos.Federation.PeerRegistry.Health.{Step, adding, removing, checking}

abbrev no_atoi : String → Option ℤ
no_atoi s = none

abbrev envelope : String → ℕ → Fields
envelope id sequence =
    field "event"
      (object (field "event_id" (string id) (field "sequence" (int (pos sequence)) no_fields)))
      no_fields

abbrev key : StoreKey
key = ("acme", "run_1")

-- The second delivery repeats an event and brings one without a sequence.
abbrev deliveries : List (StoreKey × List Fields)
deliveries =
    (key, envelope "e1" 1 ∷ envelope "e2" 4 ∷ [])
    ∷ (key, envelope "e2" 4 ∷ envelope "e3" 0 ∷ envelope "e4" 7 ∷ [])
    ∷ []

run-new_event_store-Inv_example : Inv (run no_atoi new_event_store deliveries)
run-new_event_store-Inv_example = run-new_event_store-Inv no_atoi deliveries

abbrev first_events : List Fields
first_events = envelope "e1" 1 ∷ envelope "e2" 4 ∷ []

abbrev later_events : List Fields
later_events = envelope "e3" 0 ∷ envelope "e4" 7 ∷ []

delivered : list (run no_atoi new_event_store deliveries) key ≡ some (first_events ++ later_events)
unfolding list ingest ingest_all ingest_one evict_oldest_runs event_sequence new_event_store at get
    put
delivered = refl

list_from_sequence_resumes_example :
    list_from_sequence no_atoi
      (run no_atoi new_event_store deliveries)
      key
      (pos (last_of no_atoi 0 first_events))
    ≡ some (select (λ e. is_unsequenced (sequence_of no_atoi e)) first_events ++ later_events)
list_from_sequence_resumes_example =
    list_from_sequence_resumes no_atoi deliveries key first_events later_events delivered

abbrev sets : List Call
sets =
    record { key = ("acme", "run_1"); stack = "east"; url = "http://east/events"; now = 10 }
    ∷ record { key = ("acme", "run_2"); stack = "west"; url = "http://west/events"; now = 20 }
    ∷ []

get-load-persisted_example :
    get (load [] (persisted (run_index new_forward_index sets).entries) 99) ("acme", "run_2")
    ≡ restamped 99 (target (run_index new_forward_index sets) ("acme", "run_2")) none
get-load-persisted_example = get-load-persisted sets 99 ("acme", "run_2")

abbrev stack : String → PeerInfo
stack id = record {
  stack_id = id;
  environment = "prod";
  region = "eu";
  api_versions = "v1" ∷ [];
  endpoints = record {
    agent_orchestrator_base_url = "http://ao";
    model_policy_base_url = "http://mp";
  };
  build = record { version = "1"; git_sha = "abc"; timestamp = "t" };
}

abbrev file : PeersFile
file = record { local = stack "home"; peers = stack "east" ∷ stack "" ∷ stack "west" ∷ [] }

abbrev steps : List Step
steps = adding (stack "north") ∷ checking (λ p. failed "refused" 5) 30 ∷ removing "west" ∷ []
