-- ===== src/Federation/EventStore.antt =====
-- federation/event_store.go. An envelope is a decoded JSON object; a field that is missing reads
-- as nil. strconv.Atoi is an argument. A map of seen ids is listed in any order.
pub mod Bound
pub mod Order
pub mod Resume
use Prim.Native.Nat.{suc}
use nexixai_agentos.Prelude.{string_key, pair_key}
use nexixai_agentos.Prelude.{
  ℕ, ◌+◌, ◌/◌, String, Bool, true, false, not, Option, none, some, List, [], ◌∷◌, ◌++◌, ◌&&◌, ◌||◌,
  ◌==◌, if◌then◌else◌, ltb, leb, eqb, is_some, get_or, length, select,
}
use nexixai_agentos.Prelude.Dict.{Dict, get, put, remove, size}

-- A Go int; overflow is not modelled.
pub data ℤ : Type 0 where
  pos : ℕ → ℤ
  -- -(n + 1)
  negsuc : ℕ → ℤ

-- The values that decoding can leave in an `any`. A float64 has its part before the point,
-- truncated, and its fraction.
mutual
  pub data Value : Type 0 where
    nil : Value
    boolean : Bool → Value
    string : String → Value
    json_number : String → Value
    float64 : ℤ → ℕ → Value
    int : ℤ → Value
    int64 : ℤ → Value
    array : Values → Value
    object : Fields → Value

  pub data Values : Type 0 where
    no_values : Values
    value : Value → Values → Values

  pub data Fields : Type 0 where
    no_fields : Fields
    field : String → Value → Fields → Fields

unfoldable pub at : Fields → String → Value
at no_fields key = nil
at (field k v fields) key = if k == key then v else at fields key

abbrev pub as_object : Value → Option Fields
as_object (object fields) = some fields
as_object _ = none

abbrev pub as_string : Value → String
as_string (string s) = s
as_string _ = ""

abbrev pub max_stored_runs : ℕ
max_stored_runs = 500

abbrev pub max_seen_event_ids : ℕ
max_seen_event_ids = 10_000

abbrev pub StoreKey : Type 0
StoreKey = String × String

-- map[string]struct{}
abbrev pub Ids : Type 0
Ids = Dict {0, 0} String Unit

pub record StoredEvents : Type 0 where
  pub seen_event_ids : Ids
  pub last_sequence : ℕ
  pub events : List Fields

pub record EventStore : Type 0 where
  pub runs : Dict StoreKey StoredEvents
  pub run_order : List StoreKey

unfoldable pub new_event_store : EventStore
new_event_store = record { runs = []; run_order = [] }

abbrev pub no_events : StoredEvents
no_events = record { seen_event_ids = []; last_sequence = 0; events = [] }

-- `seq != 0 && seq <= last`
abbrev pub is_stale : ℤ → ℕ → Bool
is_stale (pos n) last = not (eqb n 0) && leb n last
is_stale (negsuc n) last = true

-- `if seq > last { last = seq }`
abbrev pub advance : ℤ → ℕ → ℕ
advance (pos n) last = if ltb last n then n else last
advance (negsuc n) last = last

-- `seq == 0 || seq > from`
abbrev pub is_after : ℤ → ℤ → Bool
is_after (pos n) (pos from) = eqb n 0 || ltb from n
is_after (pos n) (negsuc from) = true
is_after (negsuc n) (pos from) = false
is_after (negsuc n) (negsuc from) = ltb n from

abbrev drop : ℕ → Ids → Ids
drop (suc n) (x ∷ xs) = drop n xs
drop _ xs = xs

-- A tenth of the seen ids goes when the cap is met.
abbrev pub capped : Ids → Ids
capped ids = if leb max_seen_event_ids (size ids) then drop (max_seen_event_ids / 10) ids else ids

abbrev accept : StoredEvents → Fields → String → ℤ → StoredEvents
accept st env eid seq = record {
  seen_event_ids = put (capped st.seen_event_ids) eid tt;
  last_sequence = advance seq st.last_sequence;
  events = st.events ++ env ∷ [];
}

-- The runs go in the order in which they came until the cap is met.
unfoldable pub evict_oldest_runs : Dict StoreKey StoredEvents → List StoreKey → EventStore
evict_oldest_runs runs [] = record { runs = runs; run_order = [] }
evict_oldest_runs runs (oldest ∷ order) =
    let rest = evict_oldest_runs (remove runs oldest) order in
    if ltb max_stored_runs (size runs)
    then rest
    else record { runs = runs; run_order = oldest ∷ order }

unfoldable pub list : EventStore → StoreKey → Option (List Fields)
list s k = elim (get s.runs k) [ none ↦ none | some st ↦ some st.events ]

module _ (atoi : String → Option ℤ) where
  unfoldable pub event_sequence : Value → ℤ
  event_sequence (json_number text) = get_or (atoi text) (pos 0)
  event_sequence (float64 whole fraction) = whole
  event_sequence (int i) = i
  event_sequence (int64 i) = i
  event_sequence (string text) = get_or (atoi text) (pos 0)
  event_sequence _ = pos 0

  -- eventSequence of an envelope's event; a nil event has the sequence 0.
  abbrev pub sequence_of : Fields → ℤ
  sequence_of env = elim (as_object (at env "event")) [
    | none ↦ pos 0
    | some event ↦ event_sequence (at event "sequence")
  ]

  -- One round of the loop of Ingest: the events after it, if the envelope is accepted.
  unfoldable pub ingest_one : StoredEvents → Fields → Option StoredEvents
  ingest_one st env = elim (as_object (at env "event")) [
    | none ↦ none
    | some event ↦
        let eid = as_string (at event "event_id") in
        let seq = event_sequence (at event "sequence") in
        if eid == ""
        then none
        else if is_stale seq st.last_sequence
        then none
        else if is_some (get st.seen_event_ids eid)
        then none
        else some (accept st env eid seq)
  ]

  -- The loop over the envelopes, with the numbers of accepted and of rejected ones.
  unfoldable pub ingest_all : StoredEvents → List Fields → StoredEvents × ℕ × ℕ
  ingest_all st [] = (st, 0, 0)
  ingest_all st (env ∷ envs) = elim (ingest_one st env) [
    | none ↦ let r = ingest_all st envs in (r.0, r.1, r.2 + 1)
    | some st' ↦ let r = ingest_all st' envs in (r.0, r.1 + 1, r.2)
  ]

  unfoldable pub ingest : EventStore → StoreKey → List Fields → EventStore × ℕ × ℕ
  ingest s k envs =
      let known = get s.runs k in
      let r = ingest_all (get_or known no_events) envs in
      let order = if is_some known then s.run_order else s.run_order ++ k ∷ [] in
      (evict_oldest_runs (put s.runs k r.0) order, r.1, r.2)

  unfoldable pub list_from_sequence : EventStore → StoreKey → ℤ → Option (List Fields)
  list_from_sequence s k from = elim (get s.runs k) [
    | none ↦ none
    | some st ↦ some (select (λ env. is_after (sequence_of env) from) st.events)
  ]

  abbrev pub run : EventStore → List (StoreKey × List Fields) → EventStore
  run s [] = s
  run s ((k, envs) ∷ calls) = run (ingest s k envs).0 calls
