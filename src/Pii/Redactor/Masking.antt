-- ===== src/Pii/Redactor/Masking.antt =====
-- Redact replaces from the end of the text to its start; here it is read from start to end
-- (internal/pii/redactor.go).
use mathlib.Core.List.{append_assoc}
use nexixai_agentos.Prelude.{string_key}
use nexixai_agentos.Prelude.{
  ℕ, ◌≤◌, String, ◌≡◌, refl, sym, false, List, [], ◌∷◌, ◌++◌, leb, inl, inr, Bool-cases, arith,
  take, drop, All, drop-append, length-take, take-split, take-append-drop, take-append_le, leb→le,
}
use nexixai_agentos.Prelude.Sort.{sort_slice, All-sort_slice, insert_by_last}
use nexixai_agentos.Pii.Patterns.{Bytes}
use nexixai_agentos.Pii.Detector.{Detection, slice}
use nexixai_agentos.Pii.Chain.{IsInside, IsChain, IsChain-All}
use nexixai_agentos.Pii.Redactor.{
  placeholder_of, resolves_before, keep_apart, resolve_overlaps, starts_after, replace, replace_all,
  redact,
}

-- The text from `pos` on, in one pass: the bytes up to a detection, its placeholder, and so on
-- behind it.
abbrev pub masked : (String → Bytes) → Bytes → ℕ → List Detection → Bytes
masked bytes_of text pos [] = drop pos text
masked bytes_of text pos (d ∷ ds) =
    slice text pos d.start ++ (bytes_of (placeholder_of d.pattern) ++ masked bytes_of text d.end ds)

pub keep_apart-IsChain :
    (text : Bytes) (pos : ℕ) (ds : List Detection)
    → All (IsInside text) ds
    → IsChain pos (keep_apart pos ds)
unfolding keep_apart
keep_apart-IsChain text pos [] h = tt
keep_apart-IsChain text pos (d ∷ ds) h = elim (Bool-cases (leb pos d.start)) [
  | inl b ↦ rw (keep_apart, b) (leb→le _ _ b, h.0.0, keep_apart-IsChain text d.end ds h.1)
  | inr b ↦ rw (keep_apart, b) (keep_apart-IsChain text pos ds h.1)
]

keep_apart-All :
    (text : Bytes) (pos : ℕ) (ds : List Detection)
    → All (IsInside text) ds
    → All (IsInside text) (keep_apart pos ds)
unfolding keep_apart
keep_apart-All text pos [] h = tt
keep_apart-All text pos (d ∷ ds) h = elim (Bool-cases (leb pos d.start)) [
  | inl b ↦ rw (keep_apart, b) (h.0, keep_apart-All text d.end ds h.1)
  | inr b ↦ rw (keep_apart, b) (keep_apart-All text pos ds h.1)
]

sort_slice-snoc :
    (d : Detection) (ds : List Detection) (pos : ℕ)
    → IsChain pos (d ∷ ds)
    → sort_slice starts_after (d ∷ ds) ≡ sort_slice starts_after ds ++ d ∷ []
sort_slice-snoc d ds pos h = insert_by_last starts_after d (sort_slice starts_after ds) (
    none_after (sort_slice starts_after ds) (
      All-sort_slice starts_after (λ (e : Detection). d.end ≤ e.start) ds
        (IsChain-All d.end ds h.2)))
  where
    none_after :
        (es : List Detection)
        → All (λ (e : Detection). d.end ≤ e.start) es
        → All (λ (e : Detection). starts_after d e ≡ false) es
    none_after [] k = tt
    none_after (e ∷ es) k = (ground arith, none_after es k.1)

module _ (bytes_of : String → Bytes) where
  replace_all-append :
      (text : Bytes) (ds : List Detection) (d : Detection)
      → replace_all bytes_of text (ds ++ d ∷ []) ≡ replace bytes_of (replace_all bytes_of text ds) d
  unfolding replace_all
  replace_all-append text [] d = refl
  replace_all-append text (e ∷ ds) d = replace_all-append (replace bytes_of text e) ds d

  -- A replacement ahead of what is masked already.
  replace-masked :
      (text : Bytes) (d : Detection) (rest : Bytes)
      → IsInside text d
      → replace bytes_of (take d.end text ++ rest) d
        ≡ take d.start text ++ (bytes_of (placeholder_of d.pattern) ++ rest)
  unfolding replace
  replace-masked text d rest h =
      rw
        (
          take-append_le d.start d.end text rest (omega arith) h.1,
          drop-append d.end (take d.end text) rest (length-take d.end text h.1),
        )
        refl

  replace_all-masked :
      (text : Bytes) (pos : ℕ) (ds : List Detection)
      → IsChain pos ds
      → All (IsInside text) ds
      → replace_all bytes_of text (sort_slice starts_after ds)
        ≡ take pos text ++ masked bytes_of text pos ds
  unfolding replace_all
  replace_all-masked text pos [] c h = sym (take-append-drop pos text)
  replace_all-masked text pos (d ∷ ds) c h =
      rw
        (
          sort_slice-snoc d ds pos c,
          replace_all-append text (sort_slice starts_after ds) d,
          replace_all-masked text d.end ds c.2 h.1,
          replace-masked text d (masked bytes_of text d.end ds) h.0,
          ← take-split pos d.start text c.0,
        )
        (append_assoc (take pos text) (slice text pos d.start)
          (bytes_of (placeholder_of d.pattern) ++ masked bytes_of text d.end ds))

resolve_overlaps-IsChain :
    (text : Bytes) (ds : List Detection)
    → All (IsInside text) ds
    → IsChain 0 (resolve_overlaps ds) × All (IsInside text) (resolve_overlaps ds)
unfolding resolve_overlaps
resolve_overlaps-IsChain text [] h = (tt, tt)
resolve_overlaps-IsChain text (d ∷ []) h = ((omega arith, h.0.0, tt), h)
resolve_overlaps-IsChain text (d ∷ e ∷ ds) h =
    let inside = All-sort_slice resolves_before (IsInside text) (d ∷ e ∷ ds) h in
    (keep_apart-IsChain text 0 _ inside, keep_apart-All text 0 _ inside)

-- Redact, whatever detections of at least one byte inside the text it is given, in any order and
-- overlapping or not, returns the text in which each of the detections that resolveOverlaps
-- keeps is replaced by its pattern's placeholder, and each byte that none of these covers stands
-- unchanged, in the order of the text.
pub redact-masked :
    (bytes_of : String → Bytes) (text : Bytes) (ds : List Detection)
    → All (IsInside text) ds
    → redact bytes_of text ds ≡ masked bytes_of text 0 (resolve_overlaps ds)
unfolding redact resolve_overlaps
redact-masked bytes_of text [] h = refl
redact-masked bytes_of text (d ∷ ds) h =
    let resolved = resolve_overlaps-IsChain text (d ∷ ds) h in
    replace_all-masked bytes_of text 0 (resolve_overlaps (d ∷ ds)) resolved.0 resolved.1
