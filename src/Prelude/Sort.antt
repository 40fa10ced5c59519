-- ===== src/Prelude/Sort.antt =====
-- Go's sort.Slice, as an insertion sort. It leaves open the order of elements of which neither is
-- less than the other.
use mathlib.Core.Path.{◌≡◌, refl, ap}
use mathlib.Core.Logic.{◌⊎◌, inl, inr}
use mathlib.Core.Bool.{Bool, true, false}
use mathlib.Core.List.{List, [], ◌∷◌, ◌++◌}
use nexixai_agentos.Prelude.Tests.{if◌then◌else◌, Bool-cases}
use nexixai_agentos.Prelude.Lists.{All, Any}

module _ {ℓ} {A : Type ℓ} (less : A → A → Bool) where
  abbrev pub insert_by : A → List A → List A
  insert_by x [] = x ∷ []
  insert_by x (y ∷ ys) = if less x y then x ∷ y ∷ ys else y ∷ insert_by x ys

  abbrev pub sort_slice : List A → List A
  sort_slice [] = []
  sort_slice (x ∷ xs) = insert_by x (sort_slice xs)

module _ {ℓ κ} {A : Type ℓ} (less : A → A → Bool) (P : A → Type κ) where
  pub All-insert_by : (x : A) (ys : List A) → P x → All P ys → All P (insert_by less x ys)
  All-insert_by x [] px h = (px, tt)
  All-insert_by x (y ∷ ys) px h = elim (Bool-cases (less x y)) [
    | inl b ↦ rw b (px, h)
    | inr b ↦ rw b (h.0, All-insert_by x ys px h.1)
  ]

  pub All-sort_slice : (xs : List A) → All P xs → All P (sort_slice less xs)
  All-sort_slice [] h = tt
  All-sort_slice (x ∷ xs) h = All-insert_by x (sort_slice less xs) h.0 (All-sort_slice xs h.1)

module _ {ℓ} {A : Type ℓ} (less : A → A → Bool) (P : A → Type 0) where
  Any-insert_by : (x : A) (ys : List A) → P x ⊎ Any P ys → Any P (insert_by less x ys)
  Any-insert_by x [] h = h
  Any-insert_by x (y ∷ ys) h = elim (Bool-cases (less x y)) [
    | inl b ↦ rw b h
    | inr b ↦ elim h [
      | inl p ↦ rw b (inr (Any-insert_by x ys (inl p)))
      | inr (inl p) ↦ rw b (inl p)
      | inr (inr k) ↦ rw b (inr (Any-insert_by x ys (inr k)))
    ]
  ]

  pub Any-sort_slice : (xs : List A) → Any P xs → Any P (sort_slice less xs)
  Any-sort_slice [] h = h
  Any-sort_slice (x ∷ xs) (inl p) = Any-insert_by x (sort_slice less xs) (inl p)
  Any-sort_slice (x ∷ xs) (inr h) = Any-insert_by x (sort_slice less xs) (inr (Any-sort_slice xs h))

module _ {ℓ} {A : Type ℓ} (less : A → A → Bool) where
  -- An element that is less than all others goes first, and one that is less than none goes last.
  pub insert_by_first :
      (x : A) (ys : List A) → All (λ y. less x y ≡ true) ys → insert_by less x ys ≡ x ∷ ys
  insert_by_first x [] h = refl
  insert_by_first x (y ∷ ys) h = rw (h.0) refl

  pub insert_by_last :
      (x : A) (ys : List A) → All (λ y. less x y ≡ false) ys → insert_by less x ys ≡ ys ++ x ∷ []
  insert_by_last x [] h = refl
  insert_by_last x (y ∷ ys) h = rw (h.0) (ap (λ l. y ∷ l) (insert_by_last x ys h.1))
