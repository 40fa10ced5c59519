-- ===== src/Storage/FileKvStore/Limits.antt =====
-- The limits of the key-value store (internal/storage/file_kv_store.go).
use nexixai_agentos.Prelude.{string_key}
use nexixai_agentos.Prelude.{
  ℕ, ◌≤◌, String, Bool, true, false, not, Option, none, some, List, [], ◌∷◌, ◌≡◌, refl, sym, ◌∙◌,
  inl, inr, ◌==◌, ◌&&◌, is_some, Bool-cases, if_holds, if_true, if_false, subst, leb, length, arith,
}
use nexixai_agentos.Prelude.Dict.{
  get, put, remove, size, get-put, get-remove, size-put, size-remove-le,
}
use nexixai_agentos.Prelude.Apart.{IsApart, IsApart-put, IsApart-remove}
use nexixai_agentos.Pii.Patterns.{Bytes}
use nexixai_agentos.Storage.Files.{
  StorageError, Call, ctx_err, require_ids, or_else, unless, load_locked, persist_locked,
}
use nexixai_agentos.Storage.FileKvStore.{
  text_key, Data, FileKvStore, new_file_kv_store, validate_key, validate_value_size, stored,
  set_loaded, delete_loaded, kv_set, kv_delete,
}
use nexixai_agentos.Storage.FileKvStore.View.{Op, set_op, delete_op, step, run_kv, load-put}

-- The data of an agent within the limits of keys and of a value's size: each key is there once, and
-- its name is valid.
abbrev pub InLimits : ℕ → ℕ → Data → Type 0
InLimits max_keys max_size entries =
    IsApart entries
    × (size entries ≤ max_keys)
    × ((key value : Bytes)
        → get entries key ≡ some value
        → (validate_key key ≡ none) × (length value ≤ max_size))

abbrev pub Inv : FileKvStore → Type 0
Inv s =
    (p : String)
    → (entries : Data) → load_locked [] s.files p ≡ some entries
    → InLimits s.max_keys_per_agent s.max_value_size entries

none-or_else : (a b : Option StorageError) → or_else a b ≡ none → (a ≡ none) × (b ≡ none)
none-or_else none b h = (refl, h)
none-or_else (some e) b h = cc

InLimits-put :
    (n m : ℕ) (d : Data) (key value : Bytes)
    → InLimits n m d
    → validate_key key ≡ none
    → validate_value_size value m ≡ none
    → (not (is_some (get d key)) && leb n (size d)) ≡ false
    → InLimits n m (put d key value)
unfolding validate_value_size
InLimits-put n m d key value h valid fits room =
    (IsApart-put d key value h.0, ground (arith, size-put d key value, h.1, room), entry)
  where
    entry :
        (k v : Bytes) → get (put d key value) k ≡ some v → (validate_key k ≡ none) × (length v ≤ m)
    entry k v e = elim (Bool-cases (key == k)) [
      | inl b ↦
          let same : key ≡ k = (text_key.same_iff key k).0 b in
          let now =
            sym (if_true (key == k) (some value) (get d k) b) ∙ sym (get-put d key k value) ∙ e in
          let value_is : value ≡ v = cc in (rw (sym same) valid, rw (sym value_is) ground arith)
      | inr b ↦
          h.2 k v
            (sym (if_false (key == k) (some value) (get d k) b) ∙ sym (get-put d key k value) ∙ e)
    ]

persisted-Inv :
    (s : FileKvStore) (path : String) (entries : Data) (ok : Bool)
    → Inv s
    → InLimits s.max_keys_per_agent s.max_value_size entries
    → Inv (stored s (persist_locked s.files path entries ok)).0
persisted-Inv s path entries false h l p d e = h p d e
persisted-Inv s path entries true h l p d e = elim (Bool-cases (path == p)) [
  | inl b ↦
      let now =
        sym (if_true (path == p) (some entries) (load_locked [] s.files p) b)
        ∙ sym (load-put [] entries s.files path p)
        ∙ e in
      let entries_are : entries ≡ d = cc in
      subst (InLimits s.max_keys_per_agent s.max_value_size) entries_are l
  | inr b ↦ h p d (
      sym (if_false (path == p) (some entries) (load_locked [] s.files p) b)
      ∙ sym (load-put [] entries s.files path p)
      ∙ e)
]

InLimits-remove : (n m : ℕ) (d : Data) (key : Bytes) → InLimits n m d → InLimits n m (remove d key)
InLimits-remove n m d key h =
    (IsApart-remove d key h.0, omega (arith, size-remove-le d key, h.1), entry)
  where
    entry : (k v : Bytes) → get (remove d key) k ≡ some v → (validate_key k ≡ none) × (length v ≤ m)
    entry k v e = elim (Bool-cases (key == k)) [
      | inl b ↦
          absurd
            (nothing (sym (if_true (key == k) none (get d k) b) ∙ sym (get-remove d key k) ∙ e))
      | inr b ↦ h.2 k v (sym (if_false (key == k) none (get d k) b) ∙ sym (get-remove d key k) ∙ e)
    ]
      where
        nothing : {A : Type 0} {a : A} → none ≡ some a → ⊥
        nothing h = cc

set_loaded-Inv :
    (s : FileKvStore) (c : Call) (path : String) (key value : Bytes) (o : Option Data)
    → load_locked [] s.files path ≡ o
    → validate_key key ≡ none
    → validate_value_size value s.max_value_size ≡ none
    → Inv s
    → Inv (set_loaded s c path key value o).0
set_loaded-Inv s c path key value none e valid fits h = h
set_loaded-Inv s c path key value (some d) e valid fits h =
    if_holds {A = FileKvStore × Option StorageError} (λ r. Inv r.0)
      (not (is_some (get d key)) && leb s.max_keys_per_agent (size d)) _ _ (λ b. h)
      (λ b.
        persisted-Inv s path (put d key value) c.disk_ok h (
          InLimits-put s.max_keys_per_agent s.max_value_size d key value (h path d e) valid fits b))

delete_loaded-Inv :
    (s : FileKvStore) (c : Call) (path : String) (key : Bytes) (o : Option Data)
    → load_locked [] s.files path ≡ o
    → Inv s
    → Inv (delete_loaded s c path key o).0
delete_loaded-Inv s c path key none e h = h
delete_loaded-Inv s c path key (some d) e h =
    persisted-Inv s path (remove d key) c.disk_ok h
      (InLimits-remove s.max_keys_per_agent s.max_value_size d key (h path d e))

unless-Inv :
    (s : FileKvStore) (err : Option StorageError) (r : FileKvStore × Option StorageError)
    → Inv s
    → (err ≡ none → Inv r.0)
    → Inv (unless err (λ e. (s, some e)) r).0
unless-Inv s none r h g = g refl
unless-Inv s (some e) r h g = h

-- The limits of a store that another store has, too.
abbrev Keeps : FileKvStore → FileKvStore → Type 0
Keeps s t = (s.max_keys_per_agent ≡ t.max_keys_per_agent) × (s.max_value_size ≡ t.max_value_size)

set_loaded-Keeps :
    (s : FileKvStore) (c : Call) (path : String) (key value : Bytes) (o : Option Data)
    → Keeps (set_loaded s c path key value o).0 s
set_loaded-Keeps s c path key value none = (refl, refl)
set_loaded-Keeps s c path key value (some d) =
    if_holds {A = FileKvStore × Option StorageError} (λ r. Keeps r.0 s)
      (not (is_some (get d key)) && leb s.max_keys_per_agent (size d)) _ _ (λ b. (refl, refl))
      (λ b. (refl, refl))

delete_loaded-Keeps :
    (s : FileKvStore) (c : Call) (path : String) (key : Bytes) (o : Option Data)
    → Keeps (delete_loaded s c path key o).0 s
delete_loaded-Keeps s c path key none = (refl, refl)
delete_loaded-Keeps s c path key (some d) = (refl, refl)

unless-Keeps :
    (s : FileKvStore) (err : Option StorageError) (r : FileKvStore × Option StorageError)
    → Keeps r.0 s
    → Keeps (unless err (λ e. (s, some e)) r).0 s
unless-Keeps s none r g = g
unless-Keeps s (some e) r g = (refl, refl)

module _ (file_path : String → String → String) where
  step-Keeps : (s : FileKvStore) (op : Op) → Keeps (step file_path s op).0 s
  unfolding kv_set kv_delete
  step-Keeps s (set_op c tenant agent key value) =
      unless-Keeps s _ _ (set_loaded-Keeps s c _ key value _)
  step-Keeps s (delete_op c tenant agent key) = unless-Keeps s _ _ (delete_loaded-Keeps s c _ key _)

  run_kv-Keeps : (s : FileKvStore) (ops : List Op) → Keeps (run_kv file_path s ops) s
  run_kv-Keeps s [] = (refl, refl)
  run_kv-Keeps s (op ∷ ops) =
      let last = run_kv-Keeps (step file_path s op).0 ops in
      let first = step-Keeps s op in (last.0 ∙ first.0, last.1 ∙ first.1)

  step-Inv : (s : FileKvStore) (op : Op) → Inv s → Inv (step file_path s op).0
  unfolding kv_set kv_delete
  step-Inv s (set_op c tenant agent key value) h =
      unless-Inv s
        (or_else (ctx_err c) (
          or_else (require_ids tenant agent)
            (or_else (validate_key key) (validate_value_size value s.max_value_size))))
        _ h
        (λ e.
          let inner =
            (none-or_else (require_ids tenant agent) _ (none-or_else (ctx_err c) _ e).1).1 in
          let both = none-or_else (validate_key key) _ inner in
          set_loaded-Inv s c (file_path tenant agent) key value _ refl both.0 both.1 h)
  step-Inv s (delete_op c tenant agent key) h =
      unless-Inv s (or_else (ctx_err c) (validate_key key)) _ h
        (λ e. delete_loaded-Inv s c (file_path tenant agent) key _ refl h)

  run_kv-Inv : (s : FileKvStore) (ops : List Op) → Inv s → Inv (run_kv file_path s ops)
  run_kv-Inv s [] h = h
  run_kv-Inv s (op ∷ ops) h = run_kv-Inv (step file_path s op).0 ops (step-Inv s op h)

  new-Inv : (m n : ℕ) → Inv (new_file_kv_store m n)
  unfolding new_file_kv_store get
  new-Inv m n p d e =
      subst (InLimits _ _) entries_are (tt, omega arith, λ k v h. absurd (nothing h))
    where
      entries_are : [] ≡ d
      entries_are = cc

      nothing : {A : Type 0} {a : A} → none ≡ some a → ⊥
      nothing h = cc

  -- After any calls of Set and Delete on a new store, what the file of any path holds has each key
  -- once, no more keys than the limit that the store was made with, and under each key a valid
  -- name and a value within the size limit it was made with, whichever contexts and writes failed.
  pub run_kv-InLimits :
      (m n : ℕ) (ops : List Op) (p : String) (entries : Data)
      → load_locked [] (run_kv file_path (new_file_kv_store m n) ops).files p ≡ some entries
      → InLimits
          (new_file_kv_store m n).max_keys_per_agent
          (new_file_kv_store m n).max_value_size
          entries
  run_kv-InLimits m n ops p entries e =
      let s = new_file_kv_store m n in
      let same = run_kv-Keeps s ops in
      let end = run_kv file_path s ops in
      subst (λ k. InLimits k s.max_value_size entries) same.0
        (subst (λ v. InLimits end.max_keys_per_agent v entries) same.1
          (run_kv-Inv s ops (new-Inv m n) p entries e))
