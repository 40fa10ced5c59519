-- ===== src/Federation/ForwardIndex/Restart.antt =====
-- A restart of the forward index: what persistLocked wrote, loaded again
-- (federation/forward_index.go, persistLocked, load).
use nexixai_agentos.Prelude.{string_key, pair_key}
use nexixai_agentos.Prelude.{
  ℕ, ◌+◌, ◌%◌, ◌≡◌, refl, Option, none, some, List, [], ◌∷◌, ◌==◌, ltb, eqb, inl, inr, Bool-cases,
}
use nexixai_agentos.Prelude.Dict.{Dict, get, put, size, get-put}
use nexixai_agentos.Prelude.Apart.{IsApart, IsApart-put, IsApart-remove, IsApart-keep}
use nexixai_agentos.Federation.ForwardIndex.{
  max_forward_entries, forward_sweep_every, ForwardKey, ForwardTarget, ForwardIndex,
  new_forward_index, is_unexpired, sweep_expired_locked, swept, capped, oldest_of,
  evict_oldest_locked, set, target, persisted, load,
}
use nexixai_agentos.Federation.ForwardIndex.Bound.{run, Call}

abbrev pub restamped : ℕ → Option ForwardTarget → Option ForwardTarget → Option ForwardTarget
restamped now none before = before
restamped now (some v) before = some (record v { created_at = now })

get-load :
    (m before : Dict ForwardKey ForwardTarget) (now : ℕ) (k : ForwardKey)
    → IsApart m
    → get (load before (persisted m) now) k ≡ restamped now (get m k) (get before k)
unfolding persisted load get
get-load [] before now k h = refl
get-load ((j, v) ∷ m) before now k h =
    let v' = record v { created_at = now } in
    let ih = get-load m (put before j v') now k h.1 in
    elim (Bool-cases (j == k)) [
      | inl b ↦
          let eq = (pair_key.same_iff j k).0 b in
          let absent : get m k ≡ none = rw (← eq) (h.0) in
          rw (ih, b, absent, get-put before j k v', b) refl
      | inr b ↦ rw (ih, b, get-put before j k v', b) refl
    ]

evict_oldest_locked-IsApart :
    (m : Dict ForwardKey ForwardTarget) → IsApart m → IsApart (evict_oldest_locked m)
unfolding evict_oldest_locked
evict_oldest_locked-IsApart [] h = tt
evict_oldest_locked-IsApart ((k, v) ∷ m) h =
    IsApart-remove ((k, v) ∷ m) (oldest_of k v.created_at m) h

swept-IsApart :
    (m : Dict ForwardKey ForwardTarget) (count now : ℕ) → IsApart m → IsApart (swept m count now)
unfolding sweep_expired_locked
swept-IsApart m count now h = elim (Bool-cases (eqb (count % forward_sweep_every) 0)) [
  | inl b ↦ rw b (IsApart-keep (is_unexpired now) m h)
  | inr b ↦ rw b h
]

capped-IsApart : (m : Dict ForwardKey ForwardTarget) → IsApart m → IsApart (capped m)
capped-IsApart m h = elim (Bool-cases (ltb max_forward_entries (size m))) [
  | inl b ↦ rw b (evict_oldest_locked-IsApart m h)
  | inr b ↦ rw b h
]

run-IsApart :
    (calls : List Call) (i : ForwardIndex) → IsApart i.entries → IsApart (run i calls).entries
unfolding set
run-IsApart [] i h = h
run-IsApart (c ∷ calls) i h =
    run-IsApart calls (set i c.key c.stack c.url c.now)
      (capped-IsApart _ (swept-IsApart _ (i.set_count + 1) c.now (IsApart-put i.entries c.key _ h)))

-- After any calls of Set on a new index, a restart keeps every mapping: the index that is loaded
-- from what was persisted answers Get for each key with the same peer and URL as before, its time
-- of creation set to the time of the load, and it has no other key.
pub get-load-persisted :
    (calls : List Call) (now : ℕ) (k : ForwardKey)
    → get (load [] (persisted (run new_forward_index calls).entries) now) k
      ≡ restamped now (target (run new_forward_index calls) k) none
unfolding new_forward_index target get
get-load-persisted calls now k =
    get-load (run new_forward_index calls).entries [] now k (run-IsApart calls _ tt)
