-- ===== src/Pii/Composed.antt =====
-- Scan, then Redact, as the agent loop does with the user's message (internal/pii).
use nexixai_agentos.Prelude.{string_key}
use nexixai_agentos.Prelude.{
  ℕ, ◌≤◌, String, ◌≡◌, refl, ◌∙◌, ap, true, List, [], ◌∷◌, leb, arith, All,
}
use nexixai_agentos.Prelude.Sort.{sort_slice, insert_by_first}
use nexixai_agentos.Pii.Patterns.{Bytes, PatternDef}
use nexixai_agentos.Pii.Detector.{Detection, scan}
use nexixai_agentos.Pii.Chain.{IsChain, IsChain-All}
use nexixai_agentos.Pii.Redactor.{resolves_before, keep_apart, resolve_overlaps, redact}
use nexixai_agentos.Pii.Redactor.Masking.{masked, redact-masked}
use nexixai_agentos.Pii.Claims.{IsMatch}
use nexixai_agentos.Pii.Detections.{scan-SeenBy}

sort_slice-chain :
    (pos : ℕ) (ds : List Detection) → IsChain pos ds → sort_slice resolves_before ds ≡ ds
unfolding resolves_before
sort_slice-chain pos [] c = refl
sort_slice-chain pos (d ∷ ds) c =
    rw (sort_slice-chain d.end ds c.2)
      (insert_by_first resolves_before d ds (first ds (IsChain-All d.end ds c.2)))
  where
    first :
        (es : List Detection)
        → All (λ (e : Detection). d.end ≤ e.start) es
        → All (λ (e : Detection). resolves_before d e ≡ true) es
    first [] h = tt
    first (e ∷ es) h = (ground arith, first es h.1)

keep_apart-chain : (pos : ℕ) (ds : List Detection) → IsChain pos ds → keep_apart pos ds ≡ ds
unfolding keep_apart
keep_apart-chain pos [] c = refl
keep_apart-chain pos (d ∷ ds) c =
    let fits : leb pos d.start ≡ true = ground arith in
    rw (keep_apart, fits) (ap (λ l. d ∷ l) (keep_apart-chain d.end ds c.2))

resolve_overlaps-chain : (ds : List Detection) → IsChain 0 ds → resolve_overlaps ds ≡ ds
unfolding resolve_overlaps
resolve_overlaps-chain [] c = refl
resolve_overlaps-chain (d ∷ []) c = refl
resolve_overlaps-chain (d ∷ e ∷ ds) c =
    rw (sort_slice-chain 0 (d ∷ e ∷ ds) c) (keep_apart-chain 0 (d ∷ e ∷ ds) c)

-- Let each regular expression match at least one byte, inside the text. Then Redact on what Scan
-- found replaces every detection of Scan by its placeholder, each exactly at its place, and
-- leaves all other bytes as they are: none of Scan's detections is dropped.
pub redact-scan :
    (find_all : String → Bytes → List (ℕ × ℕ)) (bytes_of : String → Bytes)
    (enabled : List PatternDef) (text : Bytes)
    → ((name : String) → All (IsMatch text) (find_all name text))
    → redact bytes_of text (scan find_all enabled text)
      ≡ masked bytes_of text 0 (scan find_all enabled text)
redact-scan find_all bytes_of enabled text h =
    let seen = scan-SeenBy find_all enabled text h in
    redact-masked bytes_of text (scan find_all enabled text) seen.1
    ∙ ap (masked bytes_of text 0) (resolve_overlaps-chain (scan find_all enabled text) seen.0)
