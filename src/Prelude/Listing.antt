-- ===== src/Prelude/Listing.antt =====
-- Keys of a map in the order of their arrival or use, and eviction in that order.
use Prim.Native.Nat.{◌≤◌}
use mathlib.Core.Path.{◌≡◌, refl, subst}
use mathlib.Core.Logic.{inl, inr}
use mathlib.Core.Bool.{true, false}
use mathlib.Core.Option.{none}
use mathlib.Core.List.{List, [], ◌∷◌, ◌++◌}
use native.Mathlib.Omega.{arith}
use nexixai_agentos.Prelude.Tests.{if◌then◌else◌, is_some, Bool-cases}
use nexixai_agentos.Prelude.Keys.{Key, ◌==◌}
use nexixai_agentos.Prelude.Dict.{Dict, get, put, remove, size, get-put, get-remove, size-remove-le}

-- The list without the first occurrence of a key.
abbrev pub erase {ℓ} : {K : Type ℓ} ⦃e : Key K⦄ → K → List K → List K
erase k [] = []
erase k (j ∷ ks) = if j == k then ks else j ∷ erase k ks

-- The keys of a map, each listed once.
abbrev pub Lists {ℓ κ} : {K : Type ℓ} {V : Type κ} ⦃e : Key K⦄ → List K → Dict K V → Type 0
Lists [] m = size m ≤ 0
Lists (k ∷ ks) m = (is_some (get m k) ≡ true) × Lists ks (remove m k)

module _ {ℓ κ} {K : Type ℓ} {V : Type κ} ⦃e : Key K⦄ where
  pub remove-put_self : (m : Dict K V) (k : K) (v : V) → remove (put m k v) k ≡ remove m k
  unfolding remove put
  remove-put_self [] k v = ground (arith, e.same_iff k k)
  remove-put_self ((i, w) ∷ m) k v =
      ground (arith, e.same_iff k k, e.same_iff i k, remove-put_self m k v)

  pub remove-put_ne :
      (m : Dict K V) (k j : K) (v : V)
      → (k == j) ≡ false
      → remove (put m k v) j ≡ put (remove m j) k v
  unfolding remove put
  remove-put_ne [] k j v h = ground arith
  remove-put_ne ((i, w) ∷ m) k j v h =
      ground (arith, e.same_iff i j, e.same_iff i k, e.same_iff k j, remove-put_ne m k j v)

  pub Lists-put_known :
      (ks : List K) (m : Dict K V) (k : K) (v : V)
      → is_some (get m k) ≡ true
      → Lists ks m
      → Lists ks (put m k v)
  unfolding get put
  Lists-put_known [] [] k v h l = cc
  Lists-put_known [] (x ∷ m) k v h l = omega arith
  Lists-put_known (j ∷ ks) m k v h l = elim (Bool-cases (k == j)) [
    | inl same ↦
        let eq = (e.same_iff k j).0 same in
        (
          rw (get-put m k j v, same) refl,
          subst (λ i. Lists ks (remove (put m k v) i)) eq (rw (remove-put_self m k v, eq) (l.1)),
        )
    | inr other ↦ (
      rw (get-put m k j v, other) (l.0),
      rw (remove-put_ne m k j v other) (
          Lists-put_known ks (remove m j) k v
            (rw (get-remove m j k) ground (arith, e.same_iff j k, e.same_iff k j)) (l.1)),
    )
  ]

  pub Lists-put_new :
      (ks : List K) (m : Dict K V) (k : K) (v : V)
      → is_some (get m k) ≡ false
      → Lists ks m
      → Lists (ks ++ k ∷ []) (put m k v)
  unfolding get put remove
  Lists-put_new [] [] k v h l = ground (arith, e.same_iff k k)
  Lists-put_new [] (x ∷ m) k v h l = ground arith
  Lists-put_new (j ∷ ks) m k v h l = elim (Bool-cases (k == j)) [
    | inl same ↦ ground (arith, e.same_iff k j)
    | inr other ↦ (
      rw (get-put m k j v, other) (l.0),
      rw (remove-put_ne m k j v other) (
          Lists-put_new ks (remove m j) k v
            (rw (get-remove m j k) ground (arith, e.same_iff j k, e.same_iff k j)) (l.1)),
    )
  ]

  remove-remove : (m : Dict K V) (k j : K) → remove (remove m k) j ≡ remove (remove m j) k
  unfolding remove
  remove-remove [] k j = refl
  remove-remove ((i, w) ∷ m) k j = ground (arith, remove-remove m k j)

  -- A key taken off the list and out of the map.
  pub Lists-erase :
      (ks : List K) (m : Dict K V) (k : K) → Lists ks m → Lists (erase k ks) (remove m k)
  Lists-erase [] m k l = omega (arith, size-remove-le m k)
  Lists-erase (j ∷ ks) m k l = elim (Bool-cases (j == k)) [
    | inl same ↦ rw same (subst (λ i. Lists ks (remove m i)) ((e.same_iff j k).0 same) (l.1))
    | inr other ↦ rw other (
      rw (get-remove m k j) ground (arith, e.same_iff j k, e.same_iff k j, l.0),
      rw (remove-remove m k j) (Lists-erase ks (remove m j) k l.1),
    )
  ]

  -- A key listed last.
  pub Lists-append :
      (ks : List K) (m : Dict K V) (k : K)
      → is_some (get m k) ≡ true
      → Lists ks (remove m k)
      → Lists (ks ++ k ∷ []) m
  Lists-append [] m k h l = (h, l)
  Lists-append (j ∷ ks) m k h l =
      let found : is_some (if k == j then none else get m j) ≡ true =
        rw (← get-remove m k j) (l.0) in
      (
        ground (arith, found),
        Lists-append ks (remove m j) k
            (rw (get-remove m j k) ground (arith, e.same_iff j k, e.same_iff k j, found, h))
            (rw (remove-remove m j k) (l.1)),
      )

  -- The last listed key is in the map.
  pub Lists-last :
      (ks : List K) (m : Dict K V) (k : K) → Lists (ks ++ k ∷ []) m → is_some (get m k) ≡ true
  Lists-last [] m k l = l.0
  Lists-last (j ∷ ks) m k l =
      let found : is_some (if j == k then none else get m k) ≡ true =
        rw (← get-remove m j k) (Lists-last ks (remove m j) k l.1) in
      ground (arith, found)
