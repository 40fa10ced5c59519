-- ===== src/Federation/EventStore/Resume.antt =====
-- Resuming the events of a run (federation/event_store.go, List, ListFromSequence).
use nexixai_agentos.Prelude.{string_key, pair_key}
use nexixai_agentos.Prelude.{
  ℕ, ◌≤◌, String, ◌≡◌, refl, ap, subst, Bool, Option, none, some, List, [], ◌∷◌, ◌++◌, select,
  arith,
}
use nexixai_agentos.Prelude.Dict.{get}
use nexixai_agentos.Federation.EventStore.{
  ℤ, pos, Fields, StoreKey, StoredEvents, new_event_store, advance, is_after, sequence_of, list,
  list_from_sequence, run,
}
use nexixai_agentos.Federation.EventStore.Order.{
  is_unsequenced, advance-le, is_after-Follows, is_after-advance, Ascends, last_of, last_of-le,
  IsInOrder, run_new-AllInOrder,
}

module _ (atoi : String → Option ℤ) where
  abbrev pub is_new : ℤ → Fields → Bool
  is_new from e = is_after (sequence_of atoi e) from

  select-new :
      (last from : ℕ) (es : List Fields)
      → from ≤ last
      → Ascends atoi last es
      → select (is_new (pos from)) es ≡ es
  select-new last from [] h a = refl
  select-new last from (e ∷ es) h a = rw (is_after-Follows last from (sequence_of atoi e) h a.0) (
      ap (λ x. e ∷ x)
        (select-new (advance (sequence_of atoi e) last) from es
          (omega (arith, advance-le last (sequence_of atoi e))) a.1))

  -- The events are those that were read, then those that came after them.
  select-read :
      (read rest : List Fields) (last from : ℕ)
      → last_of atoi last read ≡ from
      → Ascends atoi last (read ++ rest)
      → select (is_new (pos from)) (read ++ rest)
        ≡ select (λ e. is_unsequenced (sequence_of atoi e)) read ++ rest
  select-read [] rest last from h a = select-new last from rest (omega arith) a
  select-read (e ∷ read) rest last from h a =
      let i = sequence_of atoi e in
      let ih = select-read read rest (advance i last) from h a.1 in
      let below : advance i last ≤ from = omega (arith, h, last_of-le atoi (advance i last) read) in
      rw (is_after-advance last from i below) (ground (arith, ih))

abbrev events_of : Option StoredEvents → Option (List Fields)
events_of none = none
events_of (some st) = some st.events

abbrev new_of : (Fields → Bool) → Option StoredEvents → Option (List Fields)
new_of test none = none
new_of test (some st) = some (select test st.events)

resumed :
    (atoi : String → Option ℤ) (o : Option StoredEvents) (read rest : List Fields)
    → IsInOrder atoi o
    → events_of o ≡ some (read ++ rest)
    → new_of (is_new atoi (pos (last_of atoi 0 read))) o
      ≡ some (select (λ e. is_unsequenced (sequence_of atoi e)) read ++ rest)
resumed atoi none read rest inv h = cc
resumed atoi (some st) read rest inv h =
    let eq : st.events ≡ read ++ rest = cc in
    rw eq (
      ap some
        (select-read atoi read rest 0 (last_of atoi 0 read) refl (subst (Ascends atoi 0) eq inv.0)))

-- A reader has the first events `read` of a run. When it asks ListFromSequence for those after the
-- highest sequence that it has, it gets all the events behind `read` in their order, and ahead of
-- them only those of `read` that carry no sequence. This holds after any calls of Ingest on a
-- new store, whatever the envelopes were.
pub list_from_sequence_resumes :
    (atoi : String → Option ℤ) (calls : List (StoreKey × List Fields)) (k : StoreKey)
    (read rest : List Fields)
    → list (run atoi new_event_store calls) k ≡ some (read ++ rest)
    → list_from_sequence atoi (run atoi new_event_store calls) k (pos (last_of atoi 0 read))
      ≡ some (select (λ e. is_unsequenced (sequence_of atoi e)) read ++ rest)
unfolding list list_from_sequence
list_from_sequence_resumes atoi calls k read rest h =
    let ordered = run_new-AllInOrder atoi calls k in
    resumed atoi (get (run atoi new_event_store calls).runs k) read rest ordered h
