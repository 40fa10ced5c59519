-- ===== src/Pii/Detections.antt =====
-- What Scan returns (internal/pii/detector.go).
use nexixai_agentos.Prelude.{string_key}
use nexixai_agentos.Prelude.{
  ℕ, ◌≤◌, ◌<◌, String, ◌≡◌, true, false, List, [], ◌∷◌, inl, inr, Bool-cases, arith, All,
}
use nexixai_agentos.Prelude.Sort.{sort_slice, insert_by, All-sort_slice, Any-sort_slice}
use nexixai_agentos.Pii.Patterns.{Bytes, PatternDef}
use nexixai_agentos.Pii.Detector.{Detection, Scanned, starts_before, scan_patterns, scan}
use nexixai_agentos.Pii.Chain.{IsInside, IsChain}
use nexixai_agentos.Pii.Claims.{IsMatch, Covers, Disjoint, Pairwise, Inv}
use nexixai_agentos.Pii.Scanning.{IsSeen, SeenBy, scan_patterns-Good}

-- A detection that is disjoint from a chain goes to its place in it.
insert_by-IsChain :
    (pos : ℕ) (e : Detection) (ds : List Detection)
    → pos ≤ e.start
    → e.start < e.end
    → All (Disjoint e) ds
    → IsChain pos ds
    → IsChain pos (insert_by starts_before e ds)
insert_by-IsChain pos e [] p n h c = (p, n, tt)
insert_by-IsChain pos e (d ∷ ds) p n h c = elim (Bool-cases (starts_before e d)) [
  | inl b ↦ rw b (p, n, before e d ds n h.0 b c)
  | inr b ↦ rw b (c.0, c.1, insert_by-IsChain d.end e ds (behind e d n c.1 h.0 b) n h.1 c.2)
]
  where
    before :
        (e d : Detection) (ds : List Detection)
        → e.start < e.end
        → Disjoint e d
        → starts_before e d ≡ true
        → IsChain pos (d ∷ ds)
        → IsChain e.end (d ∷ ds)
    before e d ds n (inl a) b c = (a, c.1, c.2)
    before e d ds n (inr a) b c = absurd (ground arith)

    behind :
        (e d : Detection)
        → e.start < e.end
        → d.start < d.end
        → Disjoint e d
        → starts_before e d ≡ false
        → d.end ≤ e.start
    behind e d n m (inl a) b = absurd (ground arith)
    behind e d n m (inr a) b = a

sort_slice-IsChain :
    (text : Bytes) (ds : List Detection)
    → All (IsInside text) ds
    → Pairwise ds
    → IsChain 0 (sort_slice starts_before ds)
sort_slice-IsChain text [] h p = tt
sort_slice-IsChain text (d ∷ ds) h p =
    insert_by-IsChain 0 d (sort_slice starts_before ds) (omega arith) h.0.0
      (All-sort_slice starts_before (Disjoint d) ds p.0) (sort_slice-IsChain text ds h.1 p.1)

IsSeen-sort_slice :
    (text : Bytes) (pat : PatternDef) (ds : List Detection) (ms : List (ℕ × ℕ))
    → All (IsSeen text pat ds) ms
    → All (IsSeen text pat (sort_slice starts_before ds)) ms
IsSeen-sort_slice text pat ds [] h = tt
IsSeen-sort_slice text pat ds (m ∷ ms) h = (again h.0, IsSeen-sort_slice text pat ds ms h.1)
  where
    again : IsSeen text pat ds m → IsSeen text pat (sort_slice starts_before ds) m
    again (inl v) = inl v
    again (inr (i, a, b, c)) = inr (i, a, b, Any-sort_slice starts_before (Covers i) ds c)

module _ (find_all : String → Bytes → List (ℕ × ℕ)) (text : Bytes) where
  SeenBy-sort_slice :
      (ds : List Detection) (pats : List PatternDef)
      → All (SeenBy find_all text ds) pats
      → All (SeenBy find_all text (sort_slice starts_before ds)) pats
  SeenBy-sort_slice ds [] h = tt
  SeenBy-sort_slice ds (pat ∷ pats) h =
      (IsSeen-sort_slice text pat ds (find_all pat.name text) h.0, SeenBy-sort_slice ds pats h.1)

-- Let each regular expression match at least one byte, inside the text. Then Scan returns the
-- detections in the order of their starts, none overlapping another, each inside the text; and
-- for every match of every enabled pattern, either its validation fails or a detection covers
-- one of its bytes.
pub scan-SeenBy :
    (find_all : String → Bytes → List (ℕ × ℕ)) (enabled : List PatternDef) (text : Bytes)
    → ((name : String) → All (IsMatch text) (find_all name text))
    → IsChain 0 (scan find_all enabled text)
      × All (IsInside text) (scan find_all enabled text)
      × All (SeenBy find_all text (scan find_all enabled text)) enabled
unfolding scan
scan-SeenBy find_all enabled [] h = (tt, tt, nothing_in_empty enabled)
  where
    no_match :
        (pat : PatternDef) (ms : List (ℕ × ℕ)) → All (IsMatch []) ms → All (IsSeen [] pat []) ms
    no_match pat [] k = tt
    no_match pat (m ∷ ms) k = absurd (omega arith)

    nothing_in_empty : (pats : List PatternDef) → All (SeenBy find_all [] []) pats
    nothing_in_empty [] = tt
    nothing_in_empty (pat ∷ pats) =
        (no_match pat (find_all pat.name []) (h pat.name), nothing_in_empty pats)
scan-SeenBy find_all enabled (b ∷ text) h =
    let start : Scanned = ((λ i. false), []) in
    let started : Inv (b ∷ text) start = record {
      inside = tt;
      apart = tt;
      claims = tt;
      covered = λ i c. absurd (cc);
    } in
    let good = scan_patterns-Good find_all (b ∷ text) enabled start started h in
    let found = (scan_patterns find_all (b ∷ text) start enabled).1 in
    (
      sort_slice-IsChain (b ∷ text) found good.0.inside good.0.apart,
      All-sort_slice starts_before (IsInside (b ∷ text)) found good.0.inside,
      SeenBy-sort_slice find_all (b ∷ text) found enabled good.1,
    )
