-- ===== src/Federation/ForwardIndex.antt =====
-- federation/forward_index.go. Times are nanoseconds of a clock that does not run backwards; a time
-- is never the zero time. The copy on disk is a list of records; encoding, and what the file system
-- answers, are outside. A map is listed in any order.
pub mod Bound
pub mod Restart
use nexixai_agentos.Prelude.{string_key, pair_key}
use nexixai_agentos.Prelude.{
  ℕ, ◌+◌, ◌*◌, ◌%◌, String, Bool, true, false, not, Option, none, some, List, [], ◌∷◌, ◌==◌,
  if◌then◌else◌, ltb, leb, eqb,
}
use nexixai_agentos.Prelude.Dict.{Dict, get, put, remove, keep, size}

abbrev pub max_forward_entries : ℕ
max_forward_entries = 10_000

-- forwardEntryTTL, a day.
abbrev pub forward_entry_ttl : ℕ
forward_entry_ttl = 24 * 3600 * 1_000_000_000

abbrev pub forward_sweep_every : ℕ
forward_sweep_every = 50

abbrev pub ForwardKey : Type 0
ForwardKey = String × String

pub record ForwardTarget : Type 0 where
  pub remote_stack_id : String
  pub remote_events_url : String
  pub created_at : ℕ

pub record ForwardIndex : Type 0 where
  pub entries : Dict ForwardKey ForwardTarget
  pub set_count : ℕ

unfoldable pub new_forward_index : ForwardIndex
new_forward_index = record { entries = []; set_count = 0 }

pub record ForwardIndexRecord : Type 0 where
  pub key : ForwardKey
  pub remote_stack_id : String
  pub remote_events_url : String

abbrev pub is_unexpired : ℕ → ForwardKey → ForwardTarget → Bool
is_unexpired now k v = not (ltb (v.created_at + forward_entry_ttl) now)

unfoldable pub sweep_expired_locked :
    Dict ForwardKey ForwardTarget → ℕ → Dict ForwardKey ForwardTarget
sweep_expired_locked m now = keep (is_unexpired now) m

-- The loop of evictOldestLocked, with the oldest entry so far.
abbrev pub oldest_of : ForwardKey → ℕ → Dict ForwardKey ForwardTarget → ForwardKey
oldest_of key time [] = key
oldest_of key time ((k, v) ∷ m) =
    if ltb v.created_at time then oldest_of k v.created_at m else oldest_of key time m

unfoldable pub evict_oldest_locked : Dict ForwardKey ForwardTarget → Dict ForwardKey ForwardTarget
evict_oldest_locked [] = []
evict_oldest_locked ((k, v) ∷ m) = remove ((k, v) ∷ m) (oldest_of k v.created_at m)

-- The opportunistic sweep, after `count` calls.
abbrev pub swept : Dict ForwardKey ForwardTarget → ℕ → ℕ → Dict ForwardKey ForwardTarget
swept m count now = if eqb (count % forward_sweep_every) 0 then sweep_expired_locked m now else m

-- The size cap.
abbrev pub capped : Dict ForwardKey ForwardTarget → Dict ForwardKey ForwardTarget
capped m = if ltb max_forward_entries (size m) then evict_oldest_locked m else m

unfoldable pub set : ForwardIndex → ForwardKey → String → String → ℕ → ForwardIndex
set i k stack url now =
    let entries =
      put i.entries k
        (record { remote_stack_id = stack; remote_events_url = url; created_at = now }) in
    record { entries = capped (swept entries (i.set_count + 1) now); set_count = i.set_count + 1 }

unfoldable pub target : ForwardIndex → ForwardKey → Option ForwardTarget
target i k = get i.entries k

-- What persistLocked writes.
unfoldable pub persisted : Dict ForwardKey ForwardTarget → List ForwardIndexRecord
persisted [] = []
persisted ((k, v) ∷ m) =
    record { key = k; remote_stack_id = v.remote_stack_id; remote_events_url = v.remote_events_url }
    ∷ persisted m

-- The loop of load over the records of the file.
unfoldable pub load :
    Dict ForwardKey ForwardTarget → List ForwardIndexRecord → ℕ → Dict ForwardKey ForwardTarget
load m [] now = m
load m (r ∷ recs) now =
    load
      (put m r.key (record {
        remote_stack_id = r.remote_stack_id;
        remote_events_url = r.remote_events_url;
        created_at = now;
      }))
      recs now
