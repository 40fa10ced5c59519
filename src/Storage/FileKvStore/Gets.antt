-- ===== src/Storage/FileKvStore/Gets.antt =====
-- What Get answers after other calls of the key-value store
-- (internal/storage/file_kv_store.go).
use nexixai_agentos.Prelude.{string_key}
use nexixai_agentos.Prelude.{
  ℕ, String, Bool, true, false, not, Option, none, some, List, [], ◌∷◌, ◌≡◌, refl, ◌∙◌, ap, inl,
  inr, ◌==◌, ◌&&◌, is_some, Bool-cases, if_holds, leb,
}
use nexixai_agentos.Prelude.Dict.{get, put, remove, size}
use nexixai_agentos.Pii.Patterns.{Bytes}
use nexixai_agentos.Storage.Files.{
  StorageError, Call, ctx_err, or_else, unless, load_locked, persist_locked,
}
use nexixai_agentos.Storage.FileKvStore.{
  text_key, Data, FileKvStore, new_file_kv_store, validate_key, found, stored, set_loaded,
  delete_loaded, kv_get, kv_set, kv_delete,
}
use nexixai_agentos.Storage.FileKvStore.View.{
  Op, set_op, delete_op, view, read_key, step, run_kv, answered, replay, replay_same, view-run_kv,
  load-put,
}

module _ (file_path : String → String → String) where
  -- No file is broken.
  abbrev IsReadable : FileKvStore → Type 0
  IsReadable s = (p : String) → is_some (load_locked [] s.files p) ≡ true

  persisted-IsReadable :
      (s : FileKvStore) (path : String) (entries : Data) (ok : Bool)
      → IsReadable s
      → IsReadable (stored s (persist_locked s.files path entries ok)).0
  persisted-IsReadable s path entries false h p = h p
  persisted-IsReadable s path entries true h p = elim (Bool-cases (path == p)) [
    | inl b ↦ rw (load-put [] entries s.files path p, b) refl
    | inr b ↦ rw (load-put [] entries s.files path p, b) (h p)
  ]

  set_loaded-IsReadable :
      (s : FileKvStore) (c : Call) (path : String) (key value : Bytes) (o : Option Data)
      → IsReadable s
      → IsReadable (set_loaded s c path key value o).0
  set_loaded-IsReadable s c path key value none h = h
  set_loaded-IsReadable s c path key value (some d) h =
      if_holds {A = FileKvStore × Option StorageError} (λ r. IsReadable r.0)
        (not (is_some (get d key)) && leb s.max_keys_per_agent (size d)) _ _ (λ b. h)
        (λ b. persisted-IsReadable s path (put d key value) c.disk_ok h)

  delete_loaded-IsReadable :
      (s : FileKvStore) (c : Call) (path : String) (key : Bytes) (o : Option Data)
      → IsReadable s
      → IsReadable (delete_loaded s c path key o).0
  delete_loaded-IsReadable s c path key none h = h
  delete_loaded-IsReadable s c path key (some d) h =
      persisted-IsReadable s path (remove d key) c.disk_ok h

  unless-IsReadable :
      (s : FileKvStore) (err : Option StorageError) (r : FileKvStore × Option StorageError)
      → IsReadable s
      → IsReadable r.0
      → IsReadable (unless err (λ e. (s, some e)) r).0
  unless-IsReadable s none r h g = g
  unless-IsReadable s (some e) r h g = h

  step-IsReadable : (s : FileKvStore) (op : Op) → IsReadable s → IsReadable (step file_path s op).0
  unfolding kv_set kv_delete
  step-IsReadable s (set_op c tenant agent key value) h =
      unless-IsReadable s _ _ h (set_loaded-IsReadable s c _ key value _ h)
  step-IsReadable s (delete_op c tenant agent key) h =
      unless-IsReadable s _ _ h (delete_loaded-IsReadable s c _ key _ h)

  run_kv-IsReadable :
      (s : FileKvStore) (ops : List Op) → IsReadable s → IsReadable (run_kv file_path s ops)
  run_kv-IsReadable s [] h = h
  run_kv-IsReadable s (op ∷ ops) h =
      run_kv-IsReadable (step file_path s op).0 ops (step-IsReadable s op h)

  new-IsReadable : (m n : ℕ) → IsReadable (new_file_kv_store m n)
  unfolding new_file_kv_store get
  new-IsReadable m n p = refl

  new-view : (m n : ℕ) (p : String) (k : Bytes) → view (new_file_kv_store m n) p k ≡ none
  unfolding new_file_kv_store get
  new-view m n p k = refl

  found-read_key :
      (o : Option Data) (key : Bytes) → is_some o ≡ true → found key o ≡ inr (read_key o key)
  found-read_key none key h = cc
  found-read_key (some d) key h = refl

  -- After any calls of Set and Delete on a new store, whatever contexts and writes fail, Get of a
  -- valid key in a context that is not done answers what the last call that succeeded, of those on
  -- the same file and key, left there; nothing, if there is none. Calls that answer an error
  -- change no key.
  pub kv_get-run_kv :
      (m n : ℕ) (ops : List Op) (c : Call) (tenant agent : String) (key : Bytes)
      → kv_get file_path (run_kv file_path (new_file_kv_store m n) ops) c tenant agent key
        ≡ unless (or_else (ctx_err c) (validate_key key)) inl (
            inr (
              replay file_path
                (answered file_path (new_file_kv_store m n) ops)
                (λ p k. none)
                (file_path tenant agent)
                key))
  unfolding kv_get
  kv_get-run_kv m n ops c tenant agent key =
      let path = file_path tenant agent in
      let s = new_file_kv_store m n in
      let end = run_kv file_path s ops in
      ap (unless (or_else (ctx_err c) (validate_key key)) inl) (
        found-read_key (load_locked [] end.files path) key
          (run_kv-IsReadable s ops (new-IsReadable m n) path)
        ∙ ap inr (
            view-run_kv file_path s ops path key
            ∙ replay_same file_path (answered file_path s ops) (view s) (λ p k. none) (new-view m n)
                path key))
