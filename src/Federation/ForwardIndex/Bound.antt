-- ===== src/Federation/ForwardIndex/Bound.antt =====
-- The cap on the entries of the forward index (federation/forward_index.go, Set).
use nexixai_agentos.Prelude.{string_key, pair_key}
use nexixai_agentos.Prelude.{
  ℕ, ◌+◌, ◌≤◌, ◌<◌, String, ◌≡◌, refl, true, List, [], ◌∷◌, ◌⊎◌, is_some, inl, ==_refl, arith,
}
use nexixai_agentos.Prelude.Dict.{Dict, get, put, size, size-put, size-remove-lt, size-keep-le}
use nexixai_agentos.Federation.ForwardIndex.{
  max_forward_entries, ForwardKey, ForwardTarget, ForwardIndex, new_forward_index, is_unexpired,
  sweep_expired_locked, swept, capped, oldest_of, evict_oldest_locked, set,
}

-- A call of Set: the key, the peer's stack and URL, and the time.
pub record Call : Type 0 where
  pub key : ForwardKey
  pub stack : String
  pub url : String
  pub now : ℕ

abbrev pub run : ForwardIndex → List Call → ForwardIndex
run i [] = i
run i (c ∷ calls) = run (set i c.key c.stack c.url c.now) calls

oldest_of-present :
    (key : ForwardKey) (time : ℕ) (m : Dict ForwardKey ForwardTarget)
    → (oldest_of key time m ≡ key) ⊎ (is_some (get m (oldest_of key time m)) ≡ true)
unfolding get
oldest_of-present key time [] = inl refl
oldest_of-present key time ((k, v) ∷ m) =
    ground (arith, oldest_of-present k v.created_at m, oldest_of-present key time m, ==_refl k)

evict_oldest_locked-lt :
    (m : Dict ForwardKey ForwardTarget) → 0 < size m → size (evict_oldest_locked m) < size m
unfolding evict_oldest_locked get
evict_oldest_locked-lt [] h = omega arith
evict_oldest_locked-lt ((k, v) ∷ m) h =
    size-remove-lt ((k, v) ∷ m) (oldest_of k v.created_at m)
      (ground (arith, oldest_of-present k v.created_at m, ==_refl k))

swept-le : (m : Dict ForwardKey ForwardTarget) (count now : ℕ) → size (swept m count now) ≤ size m
unfolding sweep_expired_locked
swept-le m count now = ground (arith, size-keep-le (is_unexpired now) m)

capped-le :
    (m : Dict ForwardKey ForwardTarget)
    → size m ≤ max_forward_entries + 1
    → size (capped m) ≤ max_forward_entries
capped-le m h = ground (arith, evict_oldest_locked-lt m)

put-le :
    (m : Dict ForwardKey ForwardTarget) (k : ForwardKey) (v : ForwardTarget)
    → size (put m k v) ≤ size m + 1
put-le m k v = ground (arith, size-put m k v)

set-le :
    (i : ForwardIndex) (k : ForwardKey) (stack url : String) (now : ℕ)
    → size i.entries ≤ max_forward_entries
    → size (set i k stack url now).entries ≤ max_forward_entries
unfolding set
set-le i k stack url now h =
    let v : ForwardTarget = record {
      remote_stack_id = stack;
      remote_events_url = url;
      created_at = now;
    } in
    capped-le (swept (put i.entries k v) (i.set_count + 1) now)
      (omega (arith, put-le i.entries k v, swept-le (put i.entries k v) (i.set_count + 1) now))

run-le :
    (calls : List Call) (i : ForwardIndex)
    → size i.entries ≤ max_forward_entries
    → size (run i calls).entries ≤ max_forward_entries
run-le [] i h = h
run-le (c ∷ calls) i h =
    run-le calls (set i c.key c.stack c.url c.now) (set-le i c.key c.stack c.url c.now h)

-- After any calls of Set on a new index, it has at most 10 000 entries.
pub run-new_forward_index-le :
    (calls : List Call) → size (run new_forward_index calls).entries ≤ max_forward_entries
unfolding new_forward_index
run-new_forward_index-le calls = run-le calls _ (omega arith)
