-- ===== src/Prelude/Map.antt =====
-- std::map and std::unordered_map keyed by identifiers, as association lists.
use drepobouncer.Prelude.Tests.{◌==◌, if◌then◌else◌}
use Prim.Native.Nat.{ℕ}
use mathlib.Core.Path.{◌≡◌, refl}
use mathlib.Core.Logic.{◌⊎◌}
use mathlib.Core.Option.{Option, none, some}
use mathlib.Core.List.{List, [], ◌∷◌}
use native.Mathlib.Omega.{arith}

abbrev pub Map {ℓ} : Type ℓ → Type ℓ
Map V = List (ℕ × V)

module _ {ℓ} {V : Type ℓ} where
  -- find
  unfoldable pub lookup : ℕ → Map V → Option V
  lookup id [] = none
  lookup id ((i, x) ∷ rest) = if i == id then some x else lookup id rest

  -- operator[] and assignment
  unfoldable pub insert : ℕ → V → Map V → Map V
  insert id new [] = (id, new) ∷ []
  insert id new ((i, x) ∷ rest) = if i == id then (id, new) ∷ rest else (i, x) ∷ insert id new rest

  -- erase
  unfoldable pub erase : ℕ → Map V → Map V
  erase id [] = []
  erase id ((i, x) ∷ rest) = let kept = erase id rest in if i == id then kept else (i, x) ∷ kept

  pub lookup-insert :
      (id i : ℕ) (new : V) (entries : Map V)
      → lookup i (insert id new entries) ≡ (if id == i then some new else lookup i entries)
  unfolding insert lookup
  lookup-insert id i new [] = refl
  lookup-insert id i new ((first, x) ∷ rest) = ground (arith, lookup-insert id i new rest)

  pub lookup-erase :
      (id i : ℕ) (entries : Map V)
      → lookup i (erase id entries) ≡ (if id == i then none else lookup i entries)
  unfolding erase lookup
  lookup-erase id i [] = ground arith
  lookup-erase id i ((first, x) ∷ rest) = ground (arith, lookup-erase id i rest)

-- What is found after an insertion is new, or was there before.
pub lookup-insert_cases {ℓ} :
    {V : Type ℓ} (id i : ℕ) (new x : V) (entries : Map V)
    → lookup i (insert id new entries) ≡ some x
    → ((i ≡ id) × (x ≡ new)) ⊎ (lookup i entries ≡ some x)
lookup-insert_cases id i new x entries h = ground (arith, lookup-insert id i new entries)

pub lookup-nil {ℓ} : {V : Type ℓ} (k : ℕ) → lookup {V = V} k [] ≡ none
unfolding lookup
lookup-nil k = refl

pub ruleset map_laws = (lookup-nil, lookup-insert, lookup-erase)
