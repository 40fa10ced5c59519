-- ===== src/Storage/FileMemoryStore.antt =====
-- internal/storage/file_memory_store.go, and EstimateTokens of internal/tokens: the messages that
-- agents remember. A limit is not negative. The path of an agent's file and the number of words
-- of a text (strings.Fields) are arguments.
pub mod Recent
use nexixai_agentos.Prelude.{string_key}
use nexixai_agentos.Prelude.{
  ℕ, ◌+◌, ◌-◌, ◌*◌, ◌/◌, String, Bool, true, false, not, Option, none, some, List, [], ◌∷◌, ◌++◌,
  ◌⊎◌, inl, inr, ◌==◌, ◌&&◌, ◌||◌, if◌then◌else◌, eqb, ltb, is_some, length, drop,
}
use nexixai_agentos.Prelude.Dict.{get, remove}
use nexixai_agentos.Storage.Files.{
  Files, StorageError, load_failed, persist_failed, Call, ctx_err, require_ids, or_else, unless,
  load_locked, persist_locked,
}

pub record ChatMessage : Type 0 where
  pub role : String
  pub content : String
  pub tool_call_id : String
  pub tool_calls : String
  pub name : String

abbrev pub Messages : Type 0
Messages = List ChatMessage

module _ (fields : String → ℕ) where
  -- 1.3 tokens a word, rounded down, and at least 4 for a text that is not empty.
  unfoldable pub estimate_tokens : String → ℕ
  estimate_tokens text =
      if text == "" then 0 else if ltb (fields text * 13 / 10) 4 then 4 else fields text * 13 / 10

  abbrev pub total_tokens : Messages → ℕ
  total_tokens [] = 0
  total_tokens (m ∷ ms) = estimate_tokens m.content + total_tokens ms

  -- The loop of trimByTokens, with the running total.
  unfoldable pub trim_from : ℕ → Messages → ℕ → Messages
  trim_from total [] max_tokens = []
  trim_from total (m ∷ ms) max_tokens =
      let rest = trim_from (total - estimate_tokens m.content) ms max_tokens in
      if ltb max_tokens total then rest else m ∷ ms

  abbrev pub trim_by_tokens : Messages → ℕ → Messages
  trim_by_tokens msgs max_tokens = trim_from (total_tokens msgs) msgs max_tokens

  abbrev pub last_messages : Messages → ℕ → Messages
  last_messages all max_messages =
      if ltb 0 max_messages && ltb max_messages (length all)
      then drop (length all - max_messages) all
      else all

  abbrev pub limited : Messages → ℕ → ℕ → Messages
  limited all max_messages max_tokens =
      let recent = last_messages all max_messages in
      if ltb 0 max_tokens then trim_by_tokens recent max_tokens else recent

  abbrev pub recent_of : ℕ → ℕ → Option Messages → StorageError ⊎ Messages
  recent_of max_messages max_tokens none = inl load_failed
  recent_of max_messages max_tokens (some all) = inr (limited all max_messages max_tokens)

abbrev pub append_loaded :
    Files Messages
    → Call
    → String
    → Messages
    → Option Messages
    → Files Messages × Option StorageError
append_loaded files c path messages none = (files, some load_failed)
append_loaded files c path messages (some existing) =
    persist_locked files path (existing ++ messages) c.disk_ok

module _ (file_path : String → String → String) where
  unfoldable pub append :
      Files Messages → Call → String → String → Messages → Files Messages × Option StorageError
  append files c tenant agent messages =
      unless (or_else (ctx_err c) (require_ids tenant agent)) (λ e. (files, some e))
        (append_loaded files c (file_path tenant agent) messages
          (load_locked [] files (file_path tenant agent)))

  unfoldable pub get_recent :
      (String → ℕ) → Files Messages → Call → String → String → ℕ → ℕ → StorageError ⊎ Messages
  get_recent fields files c tenant agent max_messages max_tokens = unless (ctx_err c) inl (
      if is_some (require_ids tenant agent)
      then inr []
      else recent_of fields max_messages max_tokens (load_locked [] files (file_path tenant agent)))

  -- Clearing a file that is not there succeeds.
  unfoldable pub clear :
      Files Messages → Call → String → String → Files Messages × Option StorageError
  clear files c tenant agent =
      unless (or_else (ctx_err c) (require_ids tenant agent)) (λ e. (files, some e))
        (if c.disk_ok || not (is_some (get files (file_path tenant agent)))
          then (remove files (file_path tenant agent), none)
          else (files, some persist_failed))
