-- ===== src/Base/Dict.antt =====
-- Python's `dict`: entries in insertion order, a key at most once.
use recruiter_pilot.Base.Equality.{Eq, list_eq, nat_eq, option_eq, string_eq, ◌==◌}
use recruiter_pilot.Base.Library.{List, Option, [], arith, none, refl, some, ◌+◌, ◌∷◌, ◌≡◌, ◌≤◌}
use recruiter_pilot.Base.Lists.{length}
use recruiter_pilot.Base.Tests.{if◌then◌else◌, is_some}

abbrev pub Dict {ℓ κ} : Type ℓ → Type κ → Type (ℓ ⊔ κ)
Dict K V = List (K × V)

module _ {ℓ κ} {K : Type ℓ} {V : Type κ} where
  abbrev pub keys : Dict K V → List K
  keys [] = []
  keys ((k, v) ∷ d) = k ∷ keys d

module _ {ℓ κ} {K : Type ℓ} {V : Type κ} ⦃e : Eq K⦄ where
  unfoldable pub lookup : K → Dict K V → Option V
  lookup k [] = none
  lookup k ((j, v) ∷ d) = if k == j then some v else lookup k d

  -- `d[k] = v`: an existing key keeps its place
  unfoldable pub insert : K → V → Dict K V → Dict K V
  insert k v [] = (k, v) ∷ []
  insert k v ((j, w) ∷ d) = if k == j then (j, v) ∷ d else (j, w) ∷ insert k v d

  -- `d.pop(k, None)`
  unfoldable pub erase : K → Dict K V → Dict K V
  erase k [] = []
  erase k ((j, w) ∷ d) = let rest = erase k d in if k == j then rest else (j, w) ∷ rest

  pub lookup-insert :
      (j k : K) (v : V) (d : Dict K V)
      → lookup j (insert k v d) ≡ (if j == k then some v else lookup j d)
  unfolding lookup insert
  lookup-insert j k v [] = refl
  lookup-insert j k v ((i, w) ∷ d) =
      ground (arith, lookup-insert j k v d, e.equals_iff j k, e.equals_iff j i, e.equals_iff k i)

  pub lookup-erase :
      (j k : K) (d : Dict K V) → lookup j (erase k d) ≡ (if j == k then none else lookup j d)
  unfolding lookup erase
  lookup-erase j k [] = ground arith
  lookup-erase j k ((i, w) ∷ d) =
      ground (arith, lookup-erase j k d, e.equals_iff j k, e.equals_iff j i, e.equals_iff k i)

  pub length-insert :
      (k : K) (v : V) (d : Dict K V)
      → length (insert k v d) ≡ (if is_some (lookup k d) then length d else length d + 1)
  unfolding lookup insert
  length-insert k v [] = omega arith
  length-insert k v ((j, w) ∷ d) = ground (arith, length-insert k v d)

  pub length-erase-le : (k : K) (d : Dict K V) → length (erase k d) ≤ length d
  unfolding erase
  length-erase-le k [] = omega arith
  length-erase-le k ((j, w) ∷ d) = ground (arith, length-erase-le k d)
