-- ===== src/Pii/Claims.antt =====
-- The claimed bytes while Scan runs (internal/pii/detector.go).
use nexixai_agentos.Prelude.{string_key}
use nexixai_agentos.Prelude.{
  ℕ, zero, suc, ◌+◌, ◌-◌, ◌≤◌, ◌<◌, ◌≡◌, true, false, ◌&&◌, ◌⊎◌, List, [], ◌∷◌, ◌++◌, ltb, leb, inl,
  inr, Bool-cases, arith, length, All, Any, All-append, Any-append, Any-append_last,
}
use nexixai_agentos.Pii.Patterns.{Bytes}
use nexixai_agentos.Pii.Detector.{Detection, Claimed, overlaps, claim, Scanned}
use nexixai_agentos.Pii.Chain.{IsInside}

-- What the regular expressions give: matches of at least one byte, inside the text.
abbrev pub IsMatch : Bytes → ℕ × ℕ → Type 0
IsMatch text m = (m.0 < m.1) × (m.1 ≤ length text)

abbrev pub Covers : ℕ → Detection → Type 0
Covers i d = (d.start ≤ i) × (i < d.end)

abbrev pub Disjoint : Detection → Detection → Type 0
Disjoint d e = (d.end ≤ e.start) ⊎ (e.end ≤ d.start)

abbrev pub Pairwise : List Detection → Type 0
Pairwise [] = Unit
Pairwise (d ∷ ds) = All (Disjoint d) ds × Pairwise ds

-- Exactly the bytes of the results are claimed.
abbrev pub ClaimedBy : Claimed → Detection → Type 0
ClaimedBy claimed d = (i : ℕ) → d.start ≤ i → i < d.end → claimed i ≡ true

pub record Inv (text : Bytes) (s : Scanned) : Type 0 where
  pub inside : All (IsInside text) s.1
  pub apart : Pairwise s.1
  pub claims : All (ClaimedBy s.0) s.1
  pub covered : (i : ℕ) → s.0 i ≡ true → Any (Covers i) s.1

overlaps-false :
    (claimed : Claimed) (start n i : ℕ)
    → overlaps claimed start n ≡ false
    → start ≤ i
    → i < start + n
    → claimed i ≡ false
overlaps-false claimed start zero i h a b = absurd (omega arith)
overlaps-false claimed start (suc n) i h a b = elim (Bool-cases (leb i start)) [
  | inl e ↦ let same : i ≡ start = ground arith in rw same (ground arith)
  | inr e ↦ overlaps-false claimed (start + 1) n i (ground arith) (ground arith) (omega arith)
]

pub overlaps-true :
    (claimed : Claimed) (start n : ℕ)
    → overlaps claimed start n ≡ true
    → (i : ℕ) × (start ≤ i) × (i < start + n) × (claimed i ≡ true)
overlaps-true claimed start zero h = cc
overlaps-true claimed start (suc n) h = elim (Bool-cases (claimed start)) [
  | inl e ↦ (start, omega arith, omega arith, e)
  | inr e ↦
      let (i, a, b, c) = overlaps-true claimed (start + 1) n (ground arith) in
      (i, omega arith, omega arith, c)
]

-- A detection over bytes that are not claimed is disjoint from every other.
Disjoint-of_free :
    (claimed : Claimed) (d e : Detection)
    → d.start < d.end
    → ClaimedBy claimed d
    → e.start < e.end
    → overlaps claimed e.start (e.end - e.start) ≡ false
    → Disjoint d e
Disjoint-of_free claimed d e dn c en free = elim (Bool-cases (leb d.end e.start)) [
  | inl h ↦ inl (ground arith)
  | inr h ↦ elim (Bool-cases (leb e.end d.start)) [
    | inl k ↦ inr (ground arith)
    | inr k ↦ elim (Bool-cases (leb e.start d.start)) [
      | inl l ↦
          let f =
            overlaps-false claimed e.start (e.end - e.start) d.start free (ground arith)
              (ground arith) in
          let t = c d.start (omega arith) dn in cc
      | inr l ↦
          let f =
            overlaps-false claimed e.start (e.end - e.start) e.start free (omega arith)
              (omega arith) in
          let t = c e.start (ground arith) (ground arith) in cc
    ]
  ]
]

All-Disjoint :
    (claimed : Claimed) (ds : List Detection) (text : Bytes) (e : Detection)
    → All (IsInside text) ds
    → All (ClaimedBy claimed) ds
    → e.start < e.end
    → overlaps claimed e.start (e.end - e.start) ≡ false
    → All (λ d. Disjoint d e) ds
All-Disjoint claimed [] text e h c n f = tt
All-Disjoint claimed (d ∷ ds) text e h c n f =
    (Disjoint-of_free claimed d e h.0.0 c.0 n f, All-Disjoint claimed ds text e h.1 c.1 n f)

Pairwise-append :
    (ds : List Detection) (e : Detection)
    → All (λ d. Disjoint d e) ds
    → Pairwise ds
    → Pairwise (ds ++ e ∷ [])
Pairwise-append [] e h p = (tt, tt)
Pairwise-append (d ∷ ds) e h p =
    (All-append (Disjoint d) ds (e ∷ []) p.0 (h.0, tt), Pairwise-append ds e h.1 p.1)

ClaimedBy-claim :
    (claimed : Claimed) (start end : ℕ) (ds : List Detection)
    → All (ClaimedBy claimed) ds
    → All (ClaimedBy (claim claimed start end)) ds
ClaimedBy-claim claimed start end [] h = tt
ClaimedBy-claim claimed start end (d ∷ ds) h =
    (λ i a b. let c = h.0 i a b in ground arith, ClaimedBy-claim claimed start end ds h.1)

-- Taking a free match keeps the invariant.
pub accept-Inv :
    (text : Bytes) (claimed : Claimed) (ds : List Detection) (e : Detection)
    → Inv text (claimed, ds)
    → IsInside text e
    → overlaps claimed e.start (e.end - e.start) ≡ false
    → Inv text (claim claimed e.start e.end, ds ++ e ∷ [])
accept-Inv text claimed ds e inv h free = record {
  inside = All-append (IsInside text) ds (e ∷ []) inv.inside (h, tt);
  apart =
      Pairwise-append ds e (All-Disjoint claimed ds text e inv.inside inv.claims h.0 free)
        inv.apart;
  claims =
      All-append (ClaimedBy (claim claimed e.start e.end)) ds (e ∷ [])
        (ClaimedBy-claim claimed e.start e.end ds inv.claims) ((λ i a b. ground arith), tt);
  covered = λ i c. elim (Bool-cases (leb e.start i && ltb i e.end)) [
    | inl b ↦ Any-append_last (Covers i) ds e (ground arith)
    | inr b ↦ Any-append (Covers i) ds (e ∷ []) (inv.covered i (ground arith))
  ];
}
