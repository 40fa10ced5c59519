-- ===== src/Pii/Chain.antt =====
-- Detections in order (internal/pii).
use nexixai_agentos.Prelude.{ℕ, ◌≤◌, ◌<◌, List, [], ◌∷◌, All, length, arith}
use nexixai_agentos.Pii.Patterns.{Bytes}
use nexixai_agentos.Pii.Detector.{Detection}

-- A detection of at least one byte, inside the text.
abbrev pub IsInside : Bytes → Detection → Type 0
IsInside text d = (d.start < d.end) × (d.end ≤ length text)

-- Detections in order that do not overlap, from `pos` on.
abbrev pub IsChain : ℕ → List Detection → Type 0
IsChain pos [] = Unit
IsChain pos (d ∷ ds) = (pos ≤ d.start) × (d.start < d.end) × IsChain d.end ds

-- In a chain every detection starts at `pos` or later.
pub IsChain-All :
    (pos : ℕ) (ds : List Detection) → IsChain pos ds → All (λ (d : Detection). pos ≤ d.start) ds
IsChain-All pos [] h = tt
IsChain-All pos (d ∷ ds) h = (h.0, weaken ds (IsChain-All d.end ds h.2))
  where
    weaken :
        (es : List Detection)
        → All (λ (e : Detection). d.end ≤ e.start) es
        → All (λ (e : Detection). pos ≤ e.start) es
    weaken [] k = tt
    weaken (e ∷ es) k = (omega arith, weaken es k.1)
