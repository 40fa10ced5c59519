-- ===== src/Storage/FileMemoryStore/Recent.antt =====
-- Which messages GetRecent returns (internal/storage/file_memory_store.go).
use nexixai_agentos.Prelude.{string_key}
use nexixai_agentos.Prelude.{
  ℕ, zero, suc, ◌+◌, ◌-◌, ◌≤◌, ◌<◌, String, Bool, true, false, none, some, List, [], ◌∷◌, ◌++◌, ◌≡◌,
  refl, sym, ◌∙◌, ap, inl, inr, ◌==◌, ◌&&◌, ◌||◌, if◌then◌else◌, eqb, ltb, leb, is_some, length,
  drop, length-drop, Bool-cases, ==_refl, if_true, if_false, subst, arith,
}
use nexixai_agentos.Prelude.Dict.{put}
use nexixai_agentos.Storage.Files.{
  Files, holds, Call, ctx_err, require_ids, or_else, unless, load_locked,
}
use nexixai_agentos.Storage.FileKvStore.View.{load-put}
use nexixai_agentos.Storage.FileMemoryStore.{
  Messages, estimate_tokens, total_tokens, trim_from, trim_by_tokens, last_messages, limited,
  recent_of, append, get_recent,
}

drop-drop : {A : Type 0} (i k : ℕ) (xs : List A) → drop i (drop k xs) ≡ drop (k + i) xs
drop-drop i zero xs = let n : i ≡ 0 + i = omega arith in ap (λ n. drop n xs) n
drop-drop i (suc k) (x ∷ xs) =
    let n : suc (k + i) ≡ suc k + i = omega arith in drop-drop i k xs ∙ ap (λ n. drop n (x ∷ xs)) n
drop-drop zero (suc k) [] = let n : suc k ≡ suc k + 0 = omega arith in ap (λ n. drop n []) n
drop-drop (suc i) (suc k) [] =
    let n : suc (k + suc i) ≡ suc k + suc i = omega arith in ap (λ n. drop n []) n

module _ (fields : String → ℕ) (max_messages max_tokens : ℕ) where
  -- A limit of 0 is none.
  abbrev pub fits : Messages → Bool
  fits ms =
      (eqb max_messages 0 || leb (length ms) max_messages)
      && (eqb max_tokens 0 || leb (total_tokens fields ms) max_tokens)

  -- The longest end of a list that fits: no longer one does.
  abbrev pub Longest : Messages → Messages → Type 0
  Longest all ms =
      (k : ℕ) × (ms ≡ drop k all) × (fits ms ≡ true) × ((j : ℕ) → j < k → fits (drop j all) ≡ false)

  trim_from-drop :
      (ms : Messages)
      → (k : ℕ) × (trim_from fields (total_tokens fields ms) ms max_tokens ≡ drop k ms)
        × (k ≤ length ms)
        × (total_tokens fields (drop k ms) ≤ max_tokens)
        × ((j : ℕ) → j < k → max_tokens < total_tokens fields (drop j ms))
  unfolding trim_from
  trim_from-drop [] = (0, refl, omega arith, omega arith, λ j h. absurd (omega arith))
  trim_from-drop (m ∷ ms) = elim (Bool-cases (ltb max_tokens (total_tokens fields (m ∷ ms)))) [
    | inr b ↦ (0, if_false _ _ _ b, omega arith, ground (arith, b), λ j h. absurd (omega arith))
    | inl b ↦
        let (k, is, short, small, large) = trim_from-drop ms in
        let left : estimate_tokens fields m.content
              + total_tokens fields ms
              - estimate_tokens fields m.content
            ≡ total_tokens fields ms =
          omega arith in
        (
          suc k,
          if_true _ _ _ b ∙ ap (λ t. trim_from fields t ms max_tokens) left ∙ is,
          omega (arith, short),
          small,
          λ j h. above k b large j h,
        )
  ]
    where
      above :
          (k : ℕ)
          → ltb max_tokens (total_tokens fields (m ∷ ms)) ≡ true
          → ((j : ℕ) → j < k → max_tokens < total_tokens fields (drop j ms))
          → (j : ℕ) → j < suc k
          → max_tokens < total_tokens fields (drop j (m ∷ ms))
      above k b large zero h = ground (arith, b)
      above k b large (suc j) h = large j (omega arith)

  last_messages-drop :
      (all : Messages)
      → (k : ℕ) × (last_messages fields all max_messages ≡ drop k all)
        × (k ≤ length all)
        × ((eqb max_messages 0 || leb (length (drop k all)) max_messages) ≡ true)
        × ((j : ℕ) → j < k → (eqb max_messages 0 || leb (length (drop j all)) max_messages) ≡ false)
  last_messages-drop all = elim (Bool-cases (ltb 0 max_messages && ltb max_messages (length all))) [
    | inr b ↦ (0, if_false _ _ _ b, omega arith, ground (arith, b), λ j h. absurd (omega arith))
    | inl b ↦ (
      length all - max_messages,
      if_true _ _ _ b,
      omega arith,
      ground (arith, b, length-drop (length all - max_messages) all),
      λ j h. ground (arith, b, h, length-drop j all),
    )
  ]

  Longest-drop :
      (all ms : Messages) (k : ℕ)
      → ms ≡ drop k all
      → fits (drop k all) ≡ true
      → ((j : ℕ) → j < k → fits (drop j all) ≡ false)
      → Longest all ms
  Longest-drop all ms k e f n = (k, e, ap fits e ∙ f, n)

  trimmed-Longest :
      (all : Messages) (k i : ℕ)
      → ltb 0 max_tokens ≡ true
      → (eqb max_messages 0 || leb (length (drop k all)) max_messages) ≡ true
      → ((j : ℕ) → j < k → (eqb max_messages 0 || leb (length (drop j all)) max_messages) ≡ false)
      → total_tokens fields (drop i (drop k all)) ≤ max_tokens
      → ((j : ℕ) → j < i → max_tokens < total_tokens fields (drop j (drop k all)))
      → Longest all (drop i (drop k all))
  trimmed-Longest all k i b few more small large =
      Longest-drop all (drop i (drop k all)) (k + i) (drop-drop i k all)
        (subst (λ ms. fits ms ≡ true) (drop-drop i k all)
          (ground (arith, b, few, small, length-drop k all, length-drop i (drop k all))))
        longer
    where
      longer : (j : ℕ) → j < k + i → fits (drop j all) ≡ false
      longer j h = elim (Bool-cases (ltb j k)) [
        | inl l ↦ ground (arith, more j (ground (arith, l)))
        | inr l ↦
            let n : k + (j - k) ≡ j = ground (arith, l) in
            let too_many = large (j - k) (ground (arith, l, h)) in
            subst (λ ms. fits ms ≡ false) (drop-drop (j - k) k all ∙ ap (λ n. drop n all) n)
              (ground (arith, b, too_many))
      ]

  pub limited-Longest : (all : Messages) → Longest all (limited fields all max_messages max_tokens)
  limited-Longest all =
      let (k, is, short, few, more) = last_messages-drop all in
      elim (Bool-cases (ltb 0 max_tokens)) [
        | inr b ↦
            Longest-drop all _ k (if_false _ _ _ b ∙ is) (ground (arith, b, few))
              (λ j h. ground (arith, more j h))
        | inl b ↦
            let (i, trimmed, least, small, large) = trim_from-drop (drop k all) in
            subst (Longest all)
              (sym trimmed
                ∙ ap (λ ms. trim_by_tokens fields ms max_tokens) (sym is)
                ∙ sym (if_true _ _ _ b))
              (trimmed-Longest all k i b few more small large)
      ]

module _ (file_path : String → String → String) (fields : String → ℕ) where
  appended :
      (files : Files Messages) (c : Call) (tenant agent : String) (old messages : Messages)
      → or_else (ctx_err c) (require_ids tenant agent) ≡ none
      → c.disk_ok ≡ true
      → load_locked [] files (file_path tenant agent) ≡ some old
      → append file_path files c tenant agent messages
        ≡ (put files (file_path tenant agent) (holds (old ++ messages)), none)
  unfolding append
  appended files c tenant agent old messages h ok l = rw (h, l, ok) refl

  recent :
      (files : Files Messages) (c : Call) (tenant agent : String) (all : Messages) (m n : ℕ)
      → ctx_err c ≡ none
      → require_ids tenant agent ≡ none
      → load_locked [] files (file_path tenant agent) ≡ some all
      → get_recent file_path fields files c tenant agent m n ≡ inr (limited fields all m n)
  unfolding get_recent
  recent files c tenant agent all m n h i l = rw (h, i, l) refl

  elsewhere :
      (files : Files Messages) (c : Call) (path tenant agent : String) (all : Messages) (m n : ℕ)
      → (path == file_path tenant agent) ≡ false
      → get_recent file_path fields (put files path (holds all)) c tenant agent m n
        ≡ get_recent file_path fields files c tenant agent m n
  unfolding get_recent
  elsewhere files c path tenant agent all m n h =
      ap
        (λ o.
          unless (ctx_err c) inl
            (if is_some (require_ids tenant agent) then inr [] else recent_of fields m n o))
        (load-put [] all files path (file_path tenant agent) ∙ if_false _ _ _ h)

  -- Append with both ids, in a context that is not done and with a write that succeeds, to a file
  -- that reads as old messages, answers no error. GetRecent then answers the longest end of the
  -- old messages with the new ones behind them that has at most the given number of messages and
  -- of estimated tokens (0 stands for no limit): what it answers fits, and no longer end does. For
  -- an agent with another file it answers as before.
  pub get_recent-append :
      (files : Files Messages) (c d : Call) (tenant agent : String) (old messages : Messages)
      (m n : ℕ)
      → ctx_err c ≡ none
      → require_ids tenant agent ≡ none
      → c.disk_ok ≡ true
      → load_locked [] files (file_path tenant agent) ≡ some old
      → ctx_err d ≡ none
      → let r = append file_path files c tenant agent messages in
        (r.1 ≡ none)
        × ((ms : Messages) × (get_recent file_path fields r.0 d tenant agent m n ≡ inr ms)
            × Longest fields m n (old ++ messages) ms)
        × ((t a : String)
            → (file_path tenant agent == file_path t a) ≡ false
            → get_recent file_path fields r.0 d t a m n
              ≡ get_recent file_path fields files d t a m n)
  get_recent-append files c d tenant agent old messages m n ctx ids ok l ctx' =
      let path = file_path tenant agent in
      let all = old ++ messages in
      let known = load-put [] all files path path ∙ if_true _ _ _ (==_refl path) in
      rw
        (appended files c tenant agent old messages
          (ap (λ o. or_else o (require_ids tenant agent)) ctx ∙ ids) ok l)
        (
          refl,
          (
            limited fields all m n,
            recent (put files path (holds all)) d tenant agent all m n ctx' ids known,
            limited-Longest fields m n all,
          ),
          λ t a h. elsewhere files d path t a all m n h,
        )
