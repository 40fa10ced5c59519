-- ===== src/Storage/FileKvStore/View.antt =====
-- The key-value store against a map from paths and keys to values
-- (internal/storage/file_kv_store.go).
use nexixai_agentos.Prelude.{string_key}
use nexixai_agentos.Prelude.{
  String, Bool, true, false, not, Option, none, some, List, [], ◌∷◌, ◌≡◌, refl, sym, ◌∙◌, ap, inl,
  inr, ◌==◌, ◌&&◌, if◌then◌else◌, is_some, Bool-cases, if_holds, leb,
}
use nexixai_agentos.Prelude.Dict.{get, put, remove, size, get-put, get-remove}
use nexixai_agentos.Pii.Patterns.{Bytes}
use nexixai_agentos.Storage.Files.{
  Files, holds, StorageError, Call, ctx_err, require_ids, or_else, unless, load_locked,
  persist_locked,
}
use nexixai_agentos.Storage.FileKvStore.{
  text_key, Data, FileKvStore, validate_key, validate_value_size, stored, set_loaded, delete_loaded,
  kv_set, kv_delete,
}

-- The calls that change the store.
pub data Op : Type 0 where
  set_op : Call → String → String → Bytes → Bytes → Op
  delete_op : Call → String → String → Bytes → Op

-- What each path holds under each key.
abbrev pub View : Type 0
View = String → Bytes → Option Bytes

abbrev pub read_key : Option Data → Bytes → Option Bytes
read_key none key = none
read_key (some entries) key = get entries key

abbrev pub view : FileKvStore → View
view s path key = read_key (load_locked [] s.files path) key

abbrev pub written : String → Bytes → Option Bytes → View → View
written path key value old p k = if path == p && key == k then value else old p k

-- A call that answers an error changes nothing.
abbrev pub after : Option StorageError → View → View → View
after none new old = new
after (some e) new old = old

module _ {A : Type 0} where
  pub load-put :
      (zero a : A) (files : Files A) (path p : String)
      → load_locked zero (put files path (holds a)) p
        ≡ (if path == p then some a else load_locked zero files p)
  load-put zero a files path p = elim (Bool-cases (path == p)) [
    | inl b ↦ rw (get-put files path p (holds a), b) refl
    | inr b ↦ rw (get-put files path p (holds a), b) refl
  ]

module _ (file_path : String → String → String) where
  abbrev pub step : FileKvStore → Op → FileKvStore × Option StorageError
  step s (set_op c tenant agent key value) = kv_set file_path s c tenant agent key value
  step s (delete_op c tenant agent key) = kv_delete file_path s c tenant agent key

  abbrev pub run_kv : FileKvStore → List Op → FileKvStore
  run_kv s [] = s
  run_kv s (op ∷ ops) = run_kv (step s op).0 ops

  abbrev pub changed : Op → View → View
  changed (set_op c tenant agent key value) = written (file_path tenant agent) key (some value)
  changed (delete_op c tenant agent key) = written (file_path tenant agent) key none

  -- The calls with what they answered.
  abbrev pub answered : FileKvStore → List Op → List (Op × Option StorageError)
  answered s [] = []
  answered s (op ∷ ops) = (op, (step s op).1) ∷ answered (step s op).0 ops

  -- What the calls that succeeded leave.
  abbrev pub replay : List (Op × Option StorageError) → View → View
  replay [] v = v
  replay ((op, err) ∷ log) v = replay log (after err (changed op v) v)

  view_persisted :
      (s : FileKvStore) (path : String) (key : Bytes) (o : Option Bytes) (before now : Data)
      (ok : Bool)
      → load_locked [] s.files path ≡ some before
      → ((k : Bytes) → get now k ≡ (if key == k then o else get before k))
      → (p : String) → (k : Bytes)
      → let r = stored s (persist_locked s.files path now ok) in
        view r.0 p k ≡ after r.1 (written path key o (view s)) (view s) p k
  view_persisted s path key o before now false h e p k = refl
  view_persisted s path key o before now true h e p k = elim (Bool-cases (path == p)) [
    | inr b ↦ rw (load-put [] now s.files path p, b) refl
    | inl b ↦
        let same : path ≡ p = (string_key.same_iff path p).0 b in
        rw (load-put [] now s.files path p, b, sym same, h) (e k)
  ]

  view-set_loaded :
      (s : FileKvStore) (c : Call) (path : String) (key value : Bytes) (o : Option Data)
      → load_locked [] s.files path ≡ o
      → (p : String) → (k : Bytes)
      → let r = set_loaded s c path key value o in
        view r.0 p k ≡ after r.1 (written path key (some value) (view s)) (view s) p k
  view-set_loaded s c path key value none h p k = refl
  view-set_loaded s c path key value (some d) h p k =
      if_holds {A = FileKvStore × Option StorageError}
        (λ r. view r.0 p k ≡ after r.1 (written path key (some value) (view s)) (view s) p k)
        (not (is_some (get d key)) && leb s.max_keys_per_agent (size d)) _ _ (λ b. refl)
        (λ b.
          view_persisted s path key (some value) d (put d key value) c.disk_ok h
            (λ k. get-put d key k value) p k)

  view-delete_loaded :
      (s : FileKvStore) (c : Call) (path : String) (key : Bytes) (o : Option Data)
      → load_locked [] s.files path ≡ o
      → (p : String) → (k : Bytes)
      → let r = delete_loaded s c path key o in
        view r.0 p k ≡ after r.1 (written path key none (view s)) (view s) p k
  view-delete_loaded s c path key none h p k = refl
  view-delete_loaded s c path key (some d) h p k =
      view_persisted s path key none d (remove d key) c.disk_ok h (λ k. get-remove d key k) p k

  view-unless :
      (s : FileKvStore) (new : View) (err : Option StorageError)
      (r : FileKvStore × Option StorageError) (p : String) (k : Bytes)
      → view r.0 p k ≡ after r.1 new (view s) p k
      → let q = unless err (λ e. (s, some e)) r in view q.0 p k ≡ after q.1 new (view s) p k
  view-unless s new none r p k h = h
  view-unless s new (some e) r p k h = refl

  view-step :
      (s : FileKvStore) (op : Op) (p : String) (k : Bytes)
      → view (step s op).0 p k ≡ after (step s op).1 (changed op (view s)) (view s) p k
  unfolding kv_set kv_delete
  view-step s (set_op c tenant agent key value) p k =
      view-unless s _
        (or_else (ctx_err c) (
          or_else (require_ids tenant agent)
            (or_else (validate_key key) (validate_value_size value s.max_value_size))))
        _ p k (view-set_loaded s c (file_path tenant agent) key value _ refl p k)
  view-step s (delete_op c tenant agent key) p k =
      view-unless s _ (or_else (ctx_err c) (validate_key key)) _ p k
        (view-delete_loaded s c (file_path tenant agent) key _ refl p k)

  changed_same :
      (op : Op) (v w : View)
      → ((p : String) → (k : Bytes) → v p k ≡ w p k)
      → (p : String) → (k : Bytes) → changed op v p k ≡ changed op w p k
  changed_same (set_op c tenant agent key value) v w h p k =
      ap (λ o. if file_path tenant agent == p && key == k then some value else o) (h p k)
  changed_same (delete_op c tenant agent key) v w h p k =
      ap (λ o. if file_path tenant agent == p && key == k then none else o) (h p k)

  pub replay_same :
      (log : List (Op × Option StorageError)) (v w : View)
      → ((p : String) → (k : Bytes) → v p k ≡ w p k)
      → (p : String) → (k : Bytes) → replay log v p k ≡ replay log w p k
  replay_same [] v w h p k = h p k
  replay_same ((op, none) ∷ log) v w h p k =
      replay_same log (changed op v) (changed op w) (changed_same op v w h) p k
  replay_same ((op, some e) ∷ log) v w h p k = replay_same log v w h p k

  pub view-run_kv :
      (s : FileKvStore) (ops : List Op) (p : String) (k : Bytes)
      → view (run_kv s ops) p k ≡ replay (answered s ops) (view s) p k
  view-run_kv s [] p k = refl
  view-run_kv s (op ∷ ops) p k =
      view-run_kv (step s op).0 ops p k
      ∙ replay_same (answered (step s op).0 ops) _ _ (view-step s op) p k
