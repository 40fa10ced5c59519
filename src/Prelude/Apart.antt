-- ===== src/Prelude/Apart.antt =====
-- Association lists that hold each key once.
use Prim.Native.Nat.{◌+◌, ◌≤◌}
use mathlib.Core.Path.{◌≡◌, refl, ap}
use mathlib.Core.Logic.{inl, inr}
use mathlib.Core.Bool.{Bool}
use mathlib.Core.Option.{none}
use mathlib.Core.List.{[], ◌∷◌}
use native.Mathlib.Omega.{arith}
use nexixai_agentos.Prelude.Tests.{Bool-cases}
use nexixai_agentos.Prelude.Keys.{Key, ◌==◌}
use nexixai_agentos.Prelude.Dict.{Dict, get, put, remove, keep, get-put, get-remove, get-keep, size}

-- The keys are apart, as a map's are.
abbrev pub IsApart {ℓ κ} : {K : Type ℓ} {V : Type κ} ⦃e : Key K⦄ → Dict K V → Type κ
IsApart [] = Unit
IsApart ((k, v) ∷ m) = (get m k ≡ none) × IsApart m

module _ {ℓ κ} {K : Type ℓ} {V : Type κ} ⦃e : Key K⦄ where
  pub IsApart-put : (m : Dict K V) (k : K) (v : V) → IsApart m → IsApart (put m k v)
  unfolding put get
  IsApart-put [] k v h = (refl, tt)
  IsApart-put ((j, w) ∷ m) k v h = elim (Bool-cases (j == k)) [
    | inl b ↦ let eq = (e.same_iff j k).0 b in rw b (rw (← eq) (h.0), h.1)
    | inr b ↦ rw b (
      rw (get-put m k j v) ground (arith, e.same_iff k j, e.same_iff j k, h.0),
      IsApart-put m k v h.1,
    )
  ]

  pub IsApart-remove : (m : Dict K V) (k : K) → IsApart m → IsApart (remove m k)
  unfolding remove
  IsApart-remove [] k h = tt
  IsApart-remove ((j, w) ∷ m) k h = elim (Bool-cases (j == k)) [
    | inl b ↦ rw b (IsApart-remove m k h.1)
    | inr b ↦ rw b (rw (get-remove m k j) ground (arith, h.0), IsApart-remove m k h.1)
  ]

  pub IsApart-keep : (p : K → V → Bool) (m : Dict K V) → IsApart m → IsApart (keep p m)
  unfolding keep
  IsApart-keep p [] h = tt
  IsApart-keep p ((j, w) ∷ m) h = elim (Bool-cases (p j w)) [
    | inl b ↦ rw b (rw (get-keep p m j, h.0) refl, IsApart-keep p m h.1)
    | inr b ↦ rw b (IsApart-remove (keep p m) j (IsApart-keep p m h.1))
  ]

  remove_absent : (m : Dict K V) (k : K) → get m k ≡ none → remove m k ≡ m
  unfolding remove get
  remove_absent [] k h = refl
  remove_absent ((j, v) ∷ m) k h = elim (Bool-cases (j == k)) [
    | inl b ↦ ground (arith, b)
    | inr b ↦ rw b (ap (λ n. (j, v) ∷ n) (remove_absent m k (ground (arith, b))))
  ]

  -- Removing a key takes away one entry at most.
  pub size-remove-ge : (m : Dict K V) (k : K) → IsApart m → size m ≤ size (remove m k) + 1
  unfolding remove
  size-remove-ge [] k h = omega arith
  size-remove-ge ((j, v) ∷ m) k h = elim (Bool-cases (j == k)) [
    | inl b ↦
        let gone : get m k ≡ none = rw (← (e.same_iff j k).0 b) (h.0) in
        rw (b, remove_absent m k gone) (omega arith)
    | inr b ↦ rw b (omega (arith, size-remove-ge m k h.1))
  ]
