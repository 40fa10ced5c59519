-- ===== src/Storage/FileKvStore.antt =====
-- internal/storage/file_kv_store.go, and ValidateKey and ValidateValueSize of
-- internal/types/storage.go: the key-value store of agents. Keys and values are their bytes (in
-- valid UTF-8, which JSON keeps), and a limit is not negative. The path of an agent's file is an
-- argument.
pub mod View
pub mod Gets
pub mod Limits
use nexixai_agentos.Prelude.{
  ℕ, String, Bool, true, false, not, Option, none, some, List, [], ◌∷◌, ◌≡◌, ◌↔◌, ◌⊎◌, inl, inr,
  refl, ap, Key, ◌==◌, ◌&&◌, ◌||◌, if◌then◌else◌, eqb, ltb, leb, eqb_iff, is_some, length, arith,
}
use nexixai_agentos.Prelude.Dict.{Dict, get, put, remove, size}
use nexixai_agentos.Prelude.Sort.{sort_slice}
use nexixai_agentos.Prelude.{string_key}
use nexixai_agentos.Pii.Patterns.{Bytes, is_digit}
use nexixai_agentos.Storage.Files.{
  Files, StorageError, key_too_long, invalid_key, value_too_large, max_keys_exceeded, load_failed,
  ids_required, Call, ctx_err, require_ids, or_else, unless, load_locked, persist_locked,
}

abbrev pub same_text : Bytes → Bytes → Bool
same_text [] [] = true
same_text [] (d ∷ ds) = false
same_text (c ∷ cs) [] = false
same_text (c ∷ cs) (d ∷ ds) = eqb c d && same_text cs ds

pub same_text_iff : (a b : Bytes) → (same_text a b ≡ true) ↔ (a ≡ b)
same_text_iff [] [] = (λ h. refl, λ h. refl)
same_text_iff [] (d ∷ ds) = (λ h. cc, λ h. cc)
same_text_iff (c ∷ cs) [] = (λ h. cc, λ h. cc)
same_text_iff (c ∷ cs) (d ∷ ds) = ground (arith, eqb_iff c d, same_text_iff cs ds)

instance abbrev pub text_key : Key Bytes
text_key = record { same = same_text; same_iff = same_text_iff }

-- sort.Strings
abbrev pub less_text : Bytes → Bytes → Bool
less_text [] [] = false
less_text [] (d ∷ ds) = true
less_text (c ∷ cs) [] = false
less_text (c ∷ cs) (d ∷ ds) = ltb c d || eqb c d && less_text cs ds

abbrev pub is_key_byte : ℕ → Bool
is_key_byte c =
    is_digit c
    || leb b'a' c && leb c b'z'
    || leb b'A' c && leb c b'Z'
    || eqb c b'-'
    || eqb c b'_'
    || eqb c b'.'

-- The pattern of keys, on a key that is not empty.
abbrev pub matches_key : Bytes → Bool
matches_key [] = true
matches_key (c ∷ cs) = is_key_byte c && matches_key cs

unfoldable pub validate_key : Bytes → Option StorageError
validate_key [] = some invalid_key
validate_key (c ∷ cs) =
    if ltb 256 (length (c ∷ cs))
    then some key_too_long
    else if matches_key (c ∷ cs)
    then none
    else some invalid_key

unfoldable pub validate_value_size : Bytes → ℕ → Option StorageError
validate_value_size value max_size =
    if ltb max_size (length value) then some value_too_large else none

abbrev pub Data : Type 0
Data = Dict Bytes Bytes

pub record FileKvStore : Type 0 where
  pub files : Files Data
  pub max_value_size : ℕ
  pub max_keys_per_agent : ℕ

abbrev pub default_max_value_size : ℕ
default_max_value_size = 65536

abbrev pub default_max_keys_per_agent : ℕ
default_max_keys_per_agent = 1000

-- A limit of 0 stands for one that is not positive.
unfoldable pub new_file_kv_store : ℕ → ℕ → FileKvStore
new_file_kv_store max_value_size max_keys_per_agent = record {
  files = [];
  max_value_size = if eqb max_value_size 0 then default_max_value_size else max_value_size;
  max_keys_per_agent =
      if eqb max_keys_per_agent 0 then default_max_keys_per_agent else max_keys_per_agent;
}

abbrev pub keys : Data → List Bytes
keys [] = []
keys ((k, v) ∷ entries) = k ∷ keys entries

abbrev pub found : Bytes → Option Data → StorageError ⊎ Option Bytes
found key none = inl load_failed
found key (some entries) = inr (get entries key)

abbrev pub listed_keys : Option Data → StorageError ⊎ List Bytes
listed_keys none = inl load_failed
listed_keys (some entries) = inr (sort_slice less_text (keys entries))

abbrev pub stored :
    FileKvStore → Files Data × Option StorageError → FileKvStore × Option StorageError
stored s (files, err) = (record s { files = files }, err)

-- What Set does with the data of the agent.
abbrev pub set_loaded :
    FileKvStore → Call → String → Bytes → Bytes → Option Data → FileKvStore × Option StorageError
set_loaded s c path key value none = (s, some load_failed)
set_loaded s c path key value (some entries) =
    if not (is_some (get entries key)) && leb s.max_keys_per_agent (size entries)
    then (s, some max_keys_exceeded)
    else stored s (persist_locked s.files path (put entries key value) c.disk_ok)

abbrev pub delete_loaded :
    FileKvStore → Call → String → Bytes → Option Data → FileKvStore × Option StorageError
delete_loaded s c path key none = (s, some load_failed)
delete_loaded s c path key (some entries) =
    stored s (persist_locked s.files path (remove entries key) c.disk_ok)

module _ (file_path : String → String → String) where
  unfoldable pub kv_get : FileKvStore → Call → String → String → Bytes → StorageError ⊎ Option Bytes
  kv_get s c tenant agent key =
      unless (or_else (ctx_err c) (validate_key key)) inl
        (found key (load_locked [] s.files (file_path tenant agent)))

  unfoldable pub kv_set :
      FileKvStore → Call → String → String → Bytes → Bytes → FileKvStore × Option StorageError
  kv_set s c tenant agent key value =
      unless
        (or_else (ctx_err c) (
          or_else (require_ids tenant agent)
            (or_else (validate_key key) (validate_value_size value s.max_value_size))))
        (λ e. (s, some e))
        (set_loaded s c (file_path tenant agent) key value
          (load_locked [] s.files (file_path tenant agent)))

  unfoldable pub kv_delete :
      FileKvStore → Call → String → String → Bytes → FileKvStore × Option StorageError
  kv_delete s c tenant agent key =
      unless (or_else (ctx_err c) (validate_key key)) (λ e. (s, some e))
        (delete_loaded s c (file_path tenant agent) key
          (load_locked [] s.files (file_path tenant agent)))

  unfoldable pub list_keys : FileKvStore → Call → String → String → StorageError ⊎ List Bytes
  list_keys s c tenant agent = unless (ctx_err c) inl (
      if is_some (require_ids tenant agent)
      then inr []
      else listed_keys (load_locked [] s.files (file_path tenant agent)))
