-- ===== src/Storage/Files.antt =====
-- The files of the stores of internal/storage: what a path holds once JSON is decoded. A write goes
-- to a temporary file that is renamed, so one that fails leaves the file as it was.
use nexixai_agentos.Prelude.{String, Bool, Option, none, some, ◌==◌, ◌||◌, if◌then◌else◌}
use nexixai_agentos.Prelude.{string_key}
use nexixai_agentos.Prelude.Dict.{Dict, get, put}

-- A file that cannot be read or does not parse is broken. JSON's null, which no write leaves, is
-- not among the contents.
pub data Content (A : Type 0) : Type 0 where
  empty_file : Content A
  holds : A → Content A
  broken : Content A

abbrev pub Files : Type 0 → Type 0
Files A = Dict String (Content A)

pub data StorageError : Type 0 where
  context_done : StorageError
  ids_required : StorageError
  key_too_long : StorageError
  invalid_key : StorageError
  value_too_large : StorageError
  max_keys_exceeded : StorageError
  load_failed : StorageError
  persist_failed : StorageError

-- What surrounds a call: whether its context is done, and whether the disk takes its write.
pub record Call : Type 0 where
  pub ctx_done : Bool
  pub disk_ok : Bool

abbrev pub ctx_err : Call → Option StorageError
ctx_err c = if c.ctx_done then some context_done else none

abbrev pub require_ids : String → String → Option StorageError
require_ids tenant agent = if tenant == "" || agent == "" then some ids_required else none

-- The first of two errors.
abbrev pub or_else : Option StorageError → Option StorageError → Option StorageError
or_else (some e) f = some e
or_else none f = f

-- What a call does unless it has failed.
abbrev pub unless {ℓ} : {A : Type ℓ} → Option StorageError → (StorageError → A) → A → A
unless (some e) on_error a = on_error e
unless none on_error a = a

module _ {A : Type 0} where
  -- What a missing or an empty file stands for comes first.
  abbrev pub read_content : A → Option (Content A) → Option A
  read_content zero none = some zero
  read_content zero (some empty_file) = some zero
  read_content zero (some (holds a)) = some a
  read_content zero (some broken) = none

  abbrev pub load_locked : A → Files A → String → Option A
  load_locked zero files path = read_content zero (get files path)

  abbrev pub persist_locked : Files A → String → A → Bool → Files A × Option StorageError
  persist_locked files path a ok =
      if ok then (put files path (holds a), none) else (files, some persist_failed)
