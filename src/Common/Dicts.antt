-- ===== src/Common/Dicts.antt =====
-- Go maps as association lists without repeated keys. A write keeps the place of its key.
-- Go leaves the order of `range` open: a definition that iterates takes the order of the list.
use scip_lsp.Common.Keys.{Key, ◌==◌, same_refl}
use scip_lsp.Common.Tests.{if◌then◌else◌}
use scip_lsp.Common.Lists.{length}
use Prim.Native.Nat.{ℕ, suc}
use mathlib.Core.Path.{◌≡◌, refl}
use mathlib.Core.Option.{Option, none, some}
use mathlib.Core.List.{List, [], ◌∷◌}
use native.Mathlib.Omega.{arith}

abbrev pub Dict {ℓ κ} : Type ℓ → Type κ → Type (ℓ ⊔ κ)
Dict K V = List (K × V)

module _ {ℓ κ} {K : Type ℓ} {V : Type κ} where
  -- `len(m)`
  abbrev pub size : Dict K V → ℕ
  size m = length m

module _ {ℓ κ} {K : Type ℓ} {V : Type κ} ⦃e : Key K⦄ where
  -- `m[k]` with its second result
  unfoldable pub get : K → Dict K V → Option V
  get k [] = none
  get k ((j, v) ∷ m) = if j == k then some v else get k m

  -- `m[k] = v`
  unfoldable pub put : K → V → Dict K V → Dict K V
  put k v [] = (k, v) ∷ []
  put k v ((j, w) ∷ m) = if j == k then (k, v) ∷ m else (j, w) ∷ put k v m

  -- `delete(m, k)`
  unfoldable pub remove : K → Dict K V → Dict K V
  remove k [] = []
  remove k ((j, v) ∷ m) = let rest = remove k m in if j == k then rest else (j, v) ∷ rest

  pub get-nil : (k : K) → get k (let m : Dict K V = [] in m) ≡ none
  unfolding get
  get-nil k = refl

  pub get-put :
      (k j : K) (v : V) (m : Dict K V) → get j (put k v m) ≡ (if k == j then some v else get j m)
  unfolding get put
  get-put k j v [] = refl
  get-put k j v ((i, w) ∷ m) =
      ground (arith, e.same_iff k j, e.same_iff i k, e.same_iff i j, get-put k j v m)

  pub get-remove :
      (k j : K) (m : Dict K V) → get j (remove k m) ≡ (if k == j then none else get j m)
  unfolding get remove
  get-remove k j [] = ground arith
  get-remove k j ((i, w) ∷ m) =
      ground (arith, e.same_iff k j, e.same_iff i k, e.same_iff i j, get-remove k j m)

  pub get-put_self : (k : K) (v : V) (m : Dict K V) → get k (put k v m) ≡ some v
  get-put_self k v m = simp (get-put, same_refl)

  pub get-remove_self : (k : K) (m : Dict K V) → get k (remove k m) ≡ none
  get-remove_self k m = simp (get-remove, same_refl)

  -- a write that is repeated changes nothing
  pub put-put_self : (k : K) (v : V) (m : Dict K V) → put k v (put k v m) ≡ put k v m
  unfolding put
  put-put_self k v [] = ground (arith, same_refl k)
  put-put_self k v ((i, w) ∷ m) = ground (arith, put-put_self k v m, same_refl k, e.same_iff i k)

  -- a write adds one entry at a new key, and none at an old one
  pub size-put :
      (k : K) (v : V) (m : Dict K V)
      → size (put k v m) ≡ elim (get k m) [ none ↦ suc (size m) | some _ ↦ size m ]
  unfolding get put
  size-put k v [] = refl
  size-put k v ((i, w) ∷ m) = ground (arith, size-put k v m)

pub ruleset dict_laws = (get-put, get-remove)

-- a map holds no key twice
module _ {ℓ κ} {K : Type ℓ} {V : Type κ} ⦃e : Key K⦄ where
  unfoldable pub Distinct : Dict K V → Type κ
  Distinct [] = Unit
  Distinct ((k, v) ∷ m) = (get k m ≡ none) × Distinct m

  pub put-Distinct : (k : K) (v : V) (m : Dict K V) → Distinct m → Distinct (put k v m)
  unfolding Distinct get put
  put-Distinct k v [] d = (refl, tt)
  put-Distinct k v ((i, w) ∷ m) (fresh, d) =
      ground (arith, e.same_iff i k, e.same_iff k i, get-put k i v m, put-Distinct k v m d)
