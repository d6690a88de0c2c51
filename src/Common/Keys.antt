-- ===== src/Common/Keys.antt =====
-- The keys of Go maps: types with a decidable comparison.
use Prim.Native.Nat.{ℕ}
use Prim.Native.String.{String}
use mathlib.Core.Bool.{Bool, true, false, ◌&&◌, ◌||◌}
use mathlib.Core.List.{List, [], ◌∷◌, ◌++◌}
use native.Mathlib.Omega.{arith}
use mathlib.Core.Logic.{◌↔◌, inl, inr}
use mathlib.Core.Path.{◌≡◌, refl}
use scip_lsp.Common.Tests.{◌==◌ as number_test, ==_iff, Bool-cases}
use text.Mathlib.Text.{◌==◌ as string_test}
use text.Mathlib.TextEquality.{eq_iff as string_test_iff}

pub record Key {ℓ} (K : Type ℓ) : Type ℓ where
  pub same : K → K → Bool
  pub same_iff : (j k : K) → (same j k ≡ true) ↔ (j ≡ k)

instance abbrev pub string_key : Key String
string_key = record { same = string_test; same_iff = string_test_iff }

module _ {ℓ} {K : Type ℓ} ⦃key : Key K⦄ where
  infix 50 ◌==◌
  abbrev pub ◌==◌ : K → K → Bool
  j == k = key.same j k

  pub same_refl : (k : K) → (k == k) ≡ true
  same_refl k = (key.same_iff k k).1 refl

instance abbrev pub number_key : Key ℕ
number_key = record { same = number_test; same_iff = ==_iff }

-- pairs of keys
module _ {ℓ κ} {J : Type ℓ} {K : Type κ} ⦃first : Key J⦄ ⦃second : Key K⦄ where
  abbrev pub same_pair : J × K → J × K → Bool
  same_pair (a, b) (c, d) = first.same a c && second.same b d

  pub same_pair_iff : (p q : J × K) → (same_pair p q ≡ true) ↔ (p ≡ q)
  same_pair_iff p q = ground (arith, first.same_iff p.0 q.0, second.same_iff p.1 q.1)

  instance abbrev pub pair_key : Key (J × K)
  pair_key = record { same = same_pair; same_iff = same_pair_iff }

-- a comparison from a decision of equality, and back
module _ {ℓ} {K : Type ℓ} where
  abbrev pub decided : Discrete K → K → K → Bool
  decided decide j k = elim (decide j k) [ yes _ ↦ true | no _ ↦ false ]

  pub decided_iff : (decide : Discrete K) (j k : K) → (decided decide j k ≡ true) ↔ (j ≡ k)
  decided_iff decide j k =
      elim (decide j k) as (λ d. (elim d [ yes _ ↦ true | no _ ↦ false ] ≡ true) ↔ (j ≡ k)) [
        | yes p ↦ (λ _. p, λ _. refl)
        | no n ↦ (ground arith, λ p. absurd (n p))
      ]

  pub keys_discrete : ⦃key : Key K⦄ → Discrete K
  keys_discrete ⦃key = key⦄ j k = elim (Bool-cases (key.same j k)) [
    | inl e ↦ yes ((key.same_iff j k).0 e)
    | inr e ↦ no (λ p. ground (arith, e, (key.same_iff j k).1 p))
  ]

pub string_discrete : Discrete String
string_discrete = keys_discrete

-- whether a list holds a key
module _ {ℓ} {K : Type ℓ} ⦃key : Key K⦄ where
  unfoldable pub contains : K → List K → Bool
  contains a [] = false
  contains a (x ∷ xs) = x == a || contains a xs

  pub contains-append :
      (a : K) (xs ys : List K) → contains a (xs ++ ys) ≡ (contains a xs || contains a ys)
  unfolding contains
  contains-append a [] ys = refl
  contains-append a (x ∷ xs) ys = ground (arith, contains-append a xs ys)
