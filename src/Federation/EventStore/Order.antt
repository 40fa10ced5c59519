-- ===== src/Federation/EventStore/Order.antt =====
-- The order of the events that a run stores (federation/event_store.go, Ingest, ListFromSequence).
use nexixai_agentos.Prelude.{string_key, pair_key}
use nexixai_agentos.Prelude.{
  ℕ, ◌≤◌, ◌<◌, String, ◌≡◌, refl, ◌∙◌, ap, subst, Bool, true, false, Option, none, some, List, [],
  ◌∷◌, ◌++◌, ◌==◌, ◌⊎◌, ltb, eqb, is_some, get_or, inl, inr, Bool-cases, Option-cases, arith,
}
use nexixai_agentos.Prelude.Dict.{Dict, get, remove, size, get-put, get-remove}
use nexixai_agentos.Federation.EventStore.{
  ℤ, pos, negsuc, Fields, max_stored_runs, StoreKey, StoredEvents, EventStore, new_event_store,
  no_events, at, as_object, as_string, is_stale, advance, is_after, event_sequence, sequence_of,
  ingest_one, accept, ingest_all, evict_oldest_runs, ingest, run,
}

-- A sequence that may come after the sequences up to `last`; 0 stands for none.
abbrev pub Follows : ℕ → ℤ → Type 0
Follows last (pos n) = (n ≡ 0) ⊎ (last < n)
Follows last (negsuc n) = ⊥

abbrev pub is_unsequenced : ℤ → Bool
is_unsequenced (pos n) = eqb n 0
is_unsequenced (negsuc n) = false

Follows-fresh : (last : ℕ) (i : ℤ) → is_stale i last ≡ false → Follows last i
Follows-fresh last (pos n) h = ground arith
Follows-fresh last (negsuc n) h = cc

pub advance-le : (last : ℕ) (i : ℤ) → last ≤ advance i last
advance-le last (pos n) = ground arith
advance-le last (negsuc n) = omega arith

pub is_after-Follows :
    (last from : ℕ) (i : ℤ) → from ≤ last → Follows last i → is_after i (pos from) ≡ true
is_after-Follows last from (pos n) h f = ground arith
is_after-Follows last from (negsuc n) h f = elim f [ ]

pub is_after-advance :
    (last from : ℕ) (i : ℤ) → advance i last ≤ from → is_after i (pos from) ≡ is_unsequenced i
is_after-advance last from (pos n) h = ground arith
is_after-advance last from (negsuc n) h = refl

module _ (atoi : String → Option ℤ) where
  -- Sequenced events come in strictly ascending order, above `last`.
  abbrev pub Ascends : ℕ → List Fields → Type 0
  Ascends last [] = Unit
  Ascends last (e ∷ es) =
      Follows last (sequence_of atoi e) × Ascends (advance (sequence_of atoi e) last) es

  -- The highest sequence of the events, or `last`.
  abbrev pub last_of : ℕ → List Fields → ℕ
  last_of last [] = last
  last_of last (e ∷ es) = last_of (advance (sequence_of atoi e) last) es

  pub last_of-le : (last : ℕ) (es : List Fields) → last ≤ last_of last es
  last_of-le last [] = omega arith
  last_of-le last (e ∷ es) = omega (
    arith,
    advance-le last (sequence_of atoi e),
    last_of-le (advance (sequence_of atoi e) last) es,
  )

  Ascends-append :
      (last : ℕ) (es : List Fields) (e : Fields)
      → Ascends last es
      → Follows (last_of last es) (sequence_of atoi e)
      → Ascends last (es ++ e ∷ [])
  Ascends-append last [] e h f = (f, tt)
  Ascends-append last (d ∷ es) e h f =
      (h.0, Ascends-append (advance (sequence_of atoi d) last) es e h.1 f)

  last_of-append :
      (last : ℕ) (es : List Fields) (e : Fields)
      → last_of last (es ++ e ∷ []) ≡ advance (sequence_of atoi e) (last_of last es)
  last_of-append last [] e = refl
  last_of-append last (d ∷ es) e = last_of-append (advance (sequence_of atoi d) last) es e

  abbrev pub InOrder : StoredEvents → Type 0
  InOrder st = Ascends 0 st.events × (last_of 0 st.events ≡ st.last_sequence)

  abbrev pub IsInOrder : Option StoredEvents → Type 0
  IsInOrder none = Unit
  IsInOrder (some st) = InOrder st

  accept-InOrder :
      (st : StoredEvents) (env : Fields) (eid : String)
      → InOrder st
      → is_stale (sequence_of atoi env) st.last_sequence ≡ false
      → InOrder (accept st env eid (sequence_of atoi env))
  accept-InOrder st env eid h fresh = (
    Ascends-append 0 st.events env h.0
        (rw (h.1) (Follows-fresh st.last_sequence (sequence_of atoi env) fresh)),
    last_of-append 0 st.events env ∙ ap (advance (sequence_of atoi env)) h.1,
  )

  ingest_one-IsInOrder :
      (st : StoredEvents) (env : Fields) → InOrder st → IsInOrder (ingest_one atoi st env)
  unfolding ingest_one
  ingest_one-IsInOrder st env h = elim (Option-cases (as_object (at env "event"))) [
    | inl e ↦ rw (IsInOrder, e) tt
    | inr (event, e) ↦
        let seq = event_sequence atoi (at event "sequence") in
        let eid = as_string (at event "event_id") in
        elim (Bool-cases (eid == "")) [
          | inl b ↦ rw (IsInOrder, e, b) tt
          | inr b ↦ elim (Bool-cases (is_stale seq st.last_sequence)) [
            | inl c ↦ rw (IsInOrder, e, b, c) tt
            | inr c ↦ elim (Bool-cases (is_some (get st.seen_event_ids eid))) [
              | inl d ↦ rw (IsInOrder, e, b, c, d) tt
              | inr d ↦
                  let eq : sequence_of atoi env ≡ seq = rw (sequence_of, e) refl in
                  let fresh = ap (λ i. is_stale i st.last_sequence) eq ∙ c in
                  rw (IsInOrder, e, b, c, d)
                    (subst (λ i. InOrder (accept st env eid i)) eq
                      (accept-InOrder st env eid h fresh))
            ]
          ]
        ]
  ]

  ingest_all-InOrder :
      (envs : List Fields) (st : StoredEvents) → InOrder st → InOrder (ingest_all atoi st envs).0
  unfolding ingest_all
  ingest_all-InOrder [] st h = h
  ingest_all-InOrder (env ∷ envs) st h = elim (Option-cases (ingest_one atoi st env)) [
    | inl e ↦ rw (ingest_all, e) (ingest_all-InOrder envs st h)
    | inr (st', e) ↦
        rw (ingest_all, e)
          (ingest_all-InOrder envs st' (subst IsInOrder e (ingest_one-IsInOrder st env h)))
  ]

  abbrev pub AllInOrder : EventStore → Type 0
  AllInOrder s = (k : StoreKey) → IsInOrder (get s.runs k)

  evict_oldest_runs-AllInOrder :
      (order : List StoreKey) (runs : Dict StoreKey StoredEvents)
      → ((k : StoreKey) → IsInOrder (get runs k))
      → AllInOrder (evict_oldest_runs runs order)
  unfolding evict_oldest_runs
  evict_oldest_runs-AllInOrder [] runs h k = h k
  evict_oldest_runs-AllInOrder (oldest ∷ order) runs h k =
      elim (Bool-cases (ltb max_stored_runs (size runs))) [
        | inl e ↦ rw e (
            evict_oldest_runs-AllInOrder order (remove runs oldest)
              (λ j. elim (Bool-cases (oldest == j)) [
                | inl b ↦ rw (get-remove runs oldest j, b) tt
                | inr b ↦ rw (get-remove runs oldest j, b) (h j)
              ])
              k)
        | inr e ↦ rw e (h k)
      ]

  get_or-InOrder : (o : Option StoredEvents) → IsInOrder o → InOrder (get_or o no_events)
  get_or-InOrder none h = (tt, refl)
  get_or-InOrder (some st) h = h

  ingest-AllInOrder :
      (s : EventStore) (k : StoreKey) (envs : List Fields)
      → AllInOrder s
      → AllInOrder (ingest atoi s k envs).0
  unfolding ingest
  ingest-AllInOrder s k envs h =
      let st = get_or (get s.runs k) no_events in
      let next = ingest_all-InOrder envs st (get_or-InOrder (get s.runs k) (h k)) in
      evict_oldest_runs-AllInOrder _ _ (λ j. elim (Bool-cases (k == j)) [
        | inl b ↦ rw (get-put s.runs k j (ingest_all atoi st envs).0, b) next
        | inr b ↦ rw (get-put s.runs k j (ingest_all atoi st envs).0, b) (h j)
      ])

  run-AllInOrder :
      (calls : List (StoreKey × List Fields)) (s : EventStore)
      → AllInOrder s
      → AllInOrder (run atoi s calls)
  run-AllInOrder [] s h = h
  run-AllInOrder ((k, envs) ∷ calls) s h =
      run-AllInOrder calls (ingest atoi s k envs).0 (ingest-AllInOrder s k envs h)

pub run_new-AllInOrder :
    (atoi : String → Option ℤ) (calls : List (StoreKey × List Fields))
    → AllInOrder atoi (run atoi new_event_store calls)
unfolding new_event_store get
run_new-AllInOrder atoi calls = run-AllInOrder atoi calls _ (λ j. tt)
