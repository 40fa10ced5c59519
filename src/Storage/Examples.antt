-- ===== src/Storage/Examples.antt =====
-- The stores of agents on small examples (internal/storage/file_kv_store.go,
-- internal/storage/file_memory_store.go).
use nexixai_agentos.Prelude.{string_key}
use nexixai_agentos.Prelude.{
  ◌≡◌, refl, String, true, false, none, some, List, [], ◌∷◌, ◌++◌, inl, inr, ◌==◌,
}
use nexixai_agentos.Prelude.Dict.{get, put, remove}
use nexixai_agentos.Storage.Files.{
  Files, holds, value_too_large, max_keys_exceeded, Call, ctx_err, or_else, unless, load_locked,
}
use nexixai_agentos.Storage.FileKvStore.{
  text_key, new_file_kv_store, validate_key, validate_value_size, kv_get, kv_set, kv_delete,
}
use nexixai_agentos.Storage.FileKvStore.View.{Op, set_op, delete_op, run_kv, replay, answered}
use nexixai_agentos.Storage.FileKvStore.Gets.{kv_get-run_kv}
use nexixai_agentos.Storage.FileKvStore.Limits.{InLimits, run_kv-InLimits}
use nexixai_agentos.Storage.FileMemoryStore.{ChatMessage, Messages, append, get_recent}
use nexixai_agentos.Storage.FileMemoryStore.Recent.{Longest, get_recent-append}

abbrev path_of : String → String → String
path_of tenant agent = agent

abbrev fine : Call
fine = record { ctx_done = false; disk_ok = true }

abbrev full_disk : Call
full_disk = record { ctx_done = false; disk_ok = false }

-- Two keys are set, one is set again in vain and the other is deleted.
abbrev ops : List Op
ops =
    set_op fine "t" "a" (b'k' ∷ []) (b'1' ∷ [])
    ∷ set_op fine "t" "a" (b'j' ∷ []) (b'2' ∷ [])
    ∷ set_op full_disk "t" "a" (b'k' ∷ []) (b'3' ∷ [])
    ∷ delete_op fine "t" "a" (b'j' ∷ [])
    ∷ []

kv_get-run_kv_example :
    kv_get path_of (run_kv path_of (new_file_kv_store 3 2) ops) fine "t" "a" (b'k' ∷ [])
    ≡ unless (or_else (ctx_err fine) (validate_key (b'k' ∷ []))) inl (
        inr (
          replay path_of
            (answered path_of (new_file_kv_store 3 2) ops)
            (λ p k. none)
            "a"
            (b'k' ∷ [])))
kv_get-run_kv_example = kv_get-run_kv path_of 3 2 ops fine "t" "a" (b'k' ∷ [])

kept :
    kv_get path_of (run_kv path_of (new_file_kv_store 3 2) ops) fine "t" "a" (b'k' ∷ [])
    ≡ inr (some (b'1' ∷ []))
unfolding kv_get kv_set kv_delete new_file_kv_store validate_key validate_value_size get put remove
kept = refl

-- A value of four bytes and a third key are refused.
refused :
    ((kv_set path_of
        (new_file_kv_store 3 2)
        fine
        "t"
        "a"
        (b'k' ∷ [])
        (b'1' ∷ b'2' ∷ b'3' ∷ b'4' ∷ [])).1
      ≡ some value_too_large)
    × ((kv_set path_of
          (run_kv path_of (new_file_kv_store 3 1) (set_op fine "t" "a" (b'k' ∷ []) [] ∷ []))
          fine
          "t"
          "a"
          (b'j' ∷ [])
          []).1
        ≡ some max_keys_exceeded)
unfolding kv_set new_file_kv_store validate_key validate_value_size get put
refused = (refl, refl)

one_entry :
    load_locked [] (run_kv path_of (new_file_kv_store 3 2) ops).files "a"
    ≡ some ((b'k' ∷ [], b'1' ∷ []) ∷ [])
unfolding kv_set kv_delete new_file_kv_store validate_key validate_value_size get put remove
one_entry = refl

run_kv-InLimits_example :
    InLimits
      (new_file_kv_store 3 2).max_keys_per_agent
      (new_file_kv_store 3 2).max_value_size
      ((b'k' ∷ [], b'1' ∷ []) ∷ [])
run_kv-InLimits_example =
    run_kv-InLimits path_of 3 2 ops "a" ((b'k' ∷ [], b'1' ∷ []) ∷ []) one_entry

abbrev message : String → ChatMessage
message text = record {
  role = "user";
  content = text;
  tool_call_id = "";
  tool_calls = "";
  name = "";
}

abbrev old : Messages
old = message "one" ∷ message "two" ∷ []

abbrev files : Files Messages
files = ("a", holds old) ∷ []

read_back : load_locked [] files "a" ≡ some old
unfolding get
read_back = refl

get_recent-append_example :
    let r = append path_of files fine "t" "a" (message "three" ∷ []) in
    (r.1 ≡ none)
    × ((ms : Messages) × (get_recent path_of (λ text. 1) r.0 fine "t" "a" 5 8 ≡ inr ms)
        × Longest (λ text. 1) 5 8 (old ++ message "three" ∷ []) ms)
    × ((t a : String)
        → ("a" == a) ≡ false
        → get_recent path_of (λ text. 1) r.0 fine t a 5 8
          ≡ get_recent path_of (λ text. 1) files fine t a 5 8)
get_recent-append_example =
    get_recent-append path_of (λ text. 1) files fine fine "t" "a" old (message "three" ∷ []) 5 8
      refl refl refl read_back refl
