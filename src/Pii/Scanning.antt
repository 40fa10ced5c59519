-- ===== src/Pii/Scanning.antt =====
-- The matches that Scan has seen (internal/pii/detector.go).
use mathlib.Core.List.{append_assoc, append-nil}
use nexixai_agentos.Prelude.{string_key}
use nexixai_agentos.Prelude.{
  ℕ, ◌-◌, ◌≤◌, ◌<◌, String, ◌≡◌, refl, sym, ◌∙◌, ap, subst, false, ◌⊎◌, List, [], ◌∷◌, ◌++◌, inl,
  inr, Bool-cases, arith, All, Any, Any-append, Any-append_last,
}
use nexixai_agentos.Pii.Patterns.{Bytes, PatternDef}
use nexixai_agentos.Pii.Detector.{
  Detection, overlaps, claim, slice, is_valid, Scanned, scan_match, scan_matches, scan_patterns,
}
use nexixai_agentos.Pii.Claims.{IsMatch, Covers, Inv, overlaps-true, accept-Inv}

-- A match is seen to: its validation fails, or a detection covers one of its bytes.
abbrev pub IsSeen : Bytes → PatternDef → List Detection → ℕ × ℕ → Type 0
IsSeen text pat ds m =
    (is_valid pat.validate (slice text m.0 m.1) ≡ false)
    ⊎ ((i : ℕ) × (m.0 ≤ i) × (i < m.1) × Any (Covers i) ds)

-- The results before `s'` are among those after.
abbrev pub Grows : Scanned → Scanned → Type 0
Grows s s' = (more : List Detection) × (s'.1 ≡ s.1 ++ more)

abbrev Good : Bytes → PatternDef → Scanned → ℕ × ℕ → Scanned → Type 0
Good text pat s m s' = Inv text s' × IsSeen text pat s'.1 m × Grows s s'

scan_match-Good :
    (text : Bytes) (pat : PatternDef) (s : Scanned) (m : ℕ × ℕ)
    → Inv text s
    → IsMatch text m
    → Good text pat s m (scan_match text pat s m)
unfolding scan_match
scan_match-Good text pat (claimed, ds) (start, end) inv h =
    let good = Good text pat (claimed, ds) (start, end) in
    let e : Detection = record {
      pattern = pat.name;
      matched = slice text start end;
      start = start;
      end = end;
    } in
    elim (Bool-cases (overlaps claimed start (end - start))) [
      | inl o ↦
          let (i, a, b, c) = overlaps-true claimed start (end - start) o in
          let same : scan_match text pat (claimed, ds) (start, end) ≡ (claimed, ds) = rw o refl in
          subst good (sym same)
            (inv, inr (i, a, omega arith, inv.covered i c), ([], sym (append-nil ds)))
      | inr o ↦ elim (Bool-cases (is_valid pat.validate (slice text start end))) [
        | inl v ↦
            let taken : scan_match text pat (claimed, ds) (start, end)
                ≡ (claim claimed start end, ds ++ e ∷ []) =
              rw (o, v) refl in
            subst good (sym taken) (
              accept-Inv text claimed ds e inv h o,
              inr (start, omega arith, h.0, Any-append_last (Covers start) ds e (omega arith)),
              (e ∷ [], refl),
            )
        | inr v ↦
            let same : scan_match text pat (claimed, ds) (start, end) ≡ (claimed, ds) =
              rw (o, v) refl in
            subst good (sym same) (inv, inl v, ([], sym (append-nil ds)))
      ]
    ]

IsSeen-Grows :
    (text : Bytes) (pat : PatternDef) (s s' : Scanned) (m : ℕ × ℕ)
    → Grows s s'
    → IsSeen text pat s.1 m
    → IsSeen text pat s'.1 m
IsSeen-Grows text pat s s' m g (inl v) = inl v
IsSeen-Grows text pat s s' m g (inr (i, a, b, c)) =
    inr (i, a, b, subst (Any (Covers i)) (sym g.1) (Any-append (Covers i) s.1 g.0 c))

All-IsSeen-Grows :
    (text : Bytes) (pat : PatternDef) (s s' : Scanned) (ms : List (ℕ × ℕ))
    → Grows s s'
    → All (IsSeen text pat s.1) ms
    → All (IsSeen text pat s'.1) ms
All-IsSeen-Grows text pat s s' [] g h = tt
All-IsSeen-Grows text pat s s' (m ∷ ms) g h =
    (IsSeen-Grows text pat s s' m g h.0, All-IsSeen-Grows text pat s s' ms g h.1)

Grows-trans : (r s t : Scanned) → Grows r s → Grows s t → Grows r t
Grows-trans r s t g h = (g.0 ++ h.0, h.1 ∙ ap (λ l. l ++ h.0) g.1 ∙ append_assoc r.1 g.0 h.0)

scan_matches-Good :
    (text : Bytes) (pat : PatternDef) (ms : List (ℕ × ℕ)) (s : Scanned)
    → Inv text s
    → All (IsMatch text) ms
    → let s' = scan_matches text pat s ms in
      Inv text s' × All (IsSeen text pat s'.1) ms × Grows s s'
unfolding scan_matches
scan_matches-Good text pat [] s inv h = (inv, tt, ([], sym (append-nil s.1)))
scan_matches-Good text pat (m ∷ ms) s inv h =
    let one = scan_match-Good text pat s m inv h.0 in
    let next = scan_match text pat s m in
    let rest = scan_matches-Good text pat ms next one.0 h.1 in
    let last = scan_matches text pat next ms in
    (
      rest.0,
      (IsSeen-Grows text pat next last m rest.2 one.1, rest.1),
      Grows-trans s next last one.2 rest.2,
    )

module _ (find_all : String → Bytes → List (ℕ × ℕ)) (text : Bytes) where
  -- Every match of a pattern in the text is seen to.
  abbrev pub SeenBy : List Detection → PatternDef → Type 0
  SeenBy ds pat = All (IsSeen text pat ds) (find_all pat.name text)

  All-SeenBy-Grows :
      (s s' : Scanned) (pats : List PatternDef)
      → Grows s s'
      → All (SeenBy s.1) pats
      → All (SeenBy s'.1) pats
  All-SeenBy-Grows s s' [] g h = tt
  All-SeenBy-Grows s s' (pat ∷ pats) g h = (
    All-IsSeen-Grows text pat s s' (find_all pat.name text) g h.0,
    All-SeenBy-Grows s s' pats g h.1,
  )

  pub scan_patterns-Good :
      (pats : List PatternDef) (s : Scanned)
      → Inv text s
      → ((name : String) → All (IsMatch text) (find_all name text))
      → let s' = scan_patterns find_all text s pats in
        Inv text s' × All (SeenBy s'.1) pats × Grows s s'
  unfolding scan_patterns
  scan_patterns-Good [] s inv h = (inv, tt, ([], sym (append-nil s.1)))
  scan_patterns-Good (pat ∷ pats) s inv h =
      let ms = find_all pat.name text in
      let one = scan_matches-Good text pat ms s inv (h pat.name) in
      let next = scan_matches text pat s ms in
      let rest = scan_patterns-Good pats next one.0 h in
      let last = scan_patterns find_all text next pats in
      (
        rest.0,
        (All-IsSeen-Grows text pat next last ms rest.2 one.1, rest.1),
        Grows-trans s next last one.2 rest.2,
      )
