-- ===== src/Prelude/Dict.antt =====
-- Go's `map` as an association list. The laws hold of every list; `put` and `remove` keep the keys
-- apart. An iteration over a map runs in the order of the list, which is any order, since the
-- theorems hold for every list.
use Prim.Native.Nat.{ℕ, suc, ◌+◌, ◌≤◌, ◌<◌}
use mathlib.Core.Path.{◌≡◌, refl}
use mathlib.Core.Bool.{Bool, true, false, ◌||◌}
use mathlib.Core.Option.{Option, none, some}
use mathlib.Core.List.{List, [], ◌∷◌}
use native.Mathlib.Omega.{arith}
use nexixai_agentos.Prelude.Tests.{if◌then◌else◌, is_some}
use nexixai_agentos.Prelude.Lists.{length}
use nexixai_agentos.Prelude.Keys.{Key, ◌==◌, ==_refl}

abbrev pub Dict {ℓ κ} : Type ℓ → Type κ → Type (ℓ ⊔ κ)
Dict K V = List (K × V)

abbrev pub size {ℓ κ} : {K : Type ℓ} {V : Type κ} → Dict K V → ℕ
size m = length m

module _ {ℓ κ} {K : Type ℓ} {V : Type κ} ⦃e : Key K⦄ where
  -- m[k], and whether k is a key
  unfoldable pub get : Dict K V → K → Option V
  get [] k = none
  get ((j, v) ∷ m) k = if j == k then some v else get m k

  -- m[k] = v
  unfoldable pub put : Dict K V → K → V → Dict K V
  put [] k v = (k, v) ∷ []
  put ((j, w) ∷ m) k v = if j == k then (k, v) ∷ m else (j, w) ∷ put m k v

  -- delete(m, k)
  unfoldable pub remove : Dict K V → K → Dict K V
  remove [] k = []
  remove ((j, v) ∷ m) k = if j == k then remove m k else (j, v) ∷ remove m k

  -- `for k, v := range m { if !keep { delete(m, k) } }`. An entry that goes takes with it those
  -- behind it under the same key (there are none in a map).
  unfoldable pub keep : (K → V → Bool) → Dict K V → Dict K V
  keep p [] = []
  keep p ((j, v) ∷ m) = let rest = keep p m in if p j v then (j, v) ∷ rest else remove rest j

  abbrev pub kept : (K → V → Bool) → K → Option V → Option V
  kept p k none = none
  kept p k (some v) = if p k v then some v else none

module _ {ℓ κ} {K : Type ℓ} {V : Type κ} ⦃e : Key K⦄ where
  pub get-put :
      (m : Dict K V) (k j : K) (v : V) → get (put m k v) j ≡ (if k == j then some v else get m j)
  unfolding get put
  get-put [] k j v = refl
  get-put ((i, w) ∷ m) k j v =
      ground (arith, e.same_iff k j, e.same_iff i k, e.same_iff i j, get-put m k j v)

  pub get-remove :
      (m : Dict K V) (k j : K) → get (remove m k) j ≡ (if k == j then none else get m j)
  unfolding get remove
  get-remove [] k j = ground arith
  get-remove ((i, w) ∷ m) k j =
      ground (arith, e.same_iff k j, e.same_iff i k, e.same_iff i j, get-remove m k j)

  pub get-keep : (p : K → V → Bool) (m : Dict K V) (k : K) → get (keep p m) k ≡ kept p k (get m k)
  unfolding get keep
  get-keep p [] k = refl
  get-keep p ((i, w) ∷ m) k =
      ground (arith, e.same_iff i k, get-keep p m k, get-remove (keep p m) i k)

  pub get-put_self : (m : Dict K V) (k : K) (v : V) → get (put m k v) k ≡ some v
  get-put_self m k v = simp (get-put, ==_refl)

  pub size-put :
      (m : Dict K V) (k : K) (v : V)
      → size (put m k v) ≡ (if is_some (get m k) then size m else size m + 1)
  unfolding get put
  size-put [] k v = refl
  size-put ((i, w) ∷ m) k v = ground (arith, size-put m k v)

  pub size-remove-le : (m : Dict K V) (k : K) → size (remove m k) ≤ size m
  unfolding remove
  size-remove-le [] k = omega arith
  size-remove-le ((i, w) ∷ m) k = ground (arith, size-remove-le m k)

  -- Deleting a key that is there shrinks the map.
  pub size-remove-lt :
      (m : Dict K V) (k : K) → is_some (get m k) ≡ true → size (remove m k) < size m
  unfolding get remove
  size-remove-lt [] k h = cc
  size-remove-lt ((i, w) ∷ m) k h = ground (arith, size-remove-lt m k, size-remove-le m k)

  pub size-keep-le : (p : K → V → Bool) (m : Dict K V) → size (keep p m) ≤ size m
  unfolding keep
  size-keep-le p [] = omega arith
  size-keep-le p ((i, w) ∷ m) = ground (arith, size-keep-le p m, size-remove-le (keep p m) i)

pub get-empty {ℓ κ} : {K : Type ℓ} {V : Type κ} ⦃e : Key K⦄ (k : K) → get {V = V} [] k ≡ none
unfolding get
get-empty k = refl

pub ruleset dict_laws = (get-empty, get-put, get-remove, get-keep)

abbrev pub listed {ℓ} : {K : Type ℓ} ⦃e : Key K⦄ → List K → K → Bool
listed [] k = false
listed (j ∷ ks) k = j == k || listed ks k

-- How many of the listed keys the map has.
module _ {ℓ κ} {K : Type ℓ} {V : Type κ} ⦃e : Key K⦄ where
  abbrev pub present : List K → Dict K V → ℕ
  present [] m = 0
  present (k ∷ ks) m = if is_some (get m k) then suc (present ks m) else present ks m

  present-put-le :
      (ks : List K) (m : Dict K V) (k : K) (v : V) → present ks m ≤ present ks (put m k v)
  present-put-le [] m k v = omega arith
  present-put-le (j ∷ ks) m k v = ground (arith, present-put-le ks m k v, get-put m k j v)

  present-put-lt :
      (ks : List K) (m : Dict K V) (k : K) (v : V)
      → listed ks k ≡ true
      → get m k ≡ none
      → present ks m < present ks (put m k v)
  present-put-lt [] m k v h n = cc
  present-put-lt (j ∷ ks) m k v h n = ground (
    arith,
    present-put-lt ks m k v,
    present-put-le ks m k v,
    get-put m k j v,
    e.same_iff j k,
    e.same_iff k j,
  )

  pub present-le-length : (ks : List K) (m : Dict K V) → present ks m ≤ length ks
  present-le-length [] m = omega arith
  present-le-length (k ∷ ks) m = ground (arith, present-le-length ks m)

  -- A map whose keys were put from a list is no larger than the list.
  pub size-put-present :
      (ks : List K) (m : Dict K V) (k : K) (v : V)
      → listed ks k ≡ true
      → size m ≤ present ks m
      → size (put m k v) ≤ present ks (put m k v)
  size-put-present ks m k v h n =
      ground (arith, size-put m k v, present-put-le ks m k v, present-put-lt ks m k v)
