-- ===== src/Base/Table.antt =====
-- A Python dict whose keys are numbers, in insertion order. Nothing here models code of its own.
use Prim.Native.Nat.{ℕ}
use mathlib.Core.Path.{◌≡◌, refl}
use mathlib.Core.Bool.{Bool}
use mathlib.Core.List.{List, [], ◌∷◌}
use mathlib.Core.Option.{Option, none, some}
use native.Mathlib.Omega.{arith}
use spaceport.Base.Tests.{◌==◌, if◌then◌else◌, is_some}

abbrev pub Table {ℓ} : Type ℓ → Type ℓ
Table V = List (ℕ × V)

module _ {ℓ} {V : Type ℓ} where
  -- `d.get(k)`
  abbrev pub lookup : ℕ → Table V → Option V
  lookup k [] = none
  lookup k ((j, v) ∷ d) = if j == k then some v else lookup k d

  -- `k in d`
  abbrev pub contains : ℕ → Table V → Bool
  contains k d = is_some (lookup k d)

  -- `d[k] = v`: in place for a present key, at the end for a new one.
  abbrev pub insert : ℕ → V → Table V → Table V
  insert k v [] = (k, v) ∷ []
  insert k v ((j, w) ∷ d) = if j == k then (k, v) ∷ d else (j, w) ∷ insert k v d

  -- `del d[k]`
  abbrev pub erase : ℕ → Table V → Table V
  erase k [] = []
  erase k ((j, w) ∷ d) = let rest = erase k d in if j == k then rest else (j, w) ∷ rest

  abbrev pub keys : Table V → List ℕ
  keys [] = []
  keys ((j, _) ∷ d) = j ∷ keys d

  -- Each value with its key becomes another.
  abbrev pub map_values : (ℕ → V → V) → Table V → Table V
  map_values f [] = []
  map_values f ((k, v) ∷ d) = (k, f k v) ∷ map_values f d

  -- Each key once.
  abbrev pub Distinct : Table V → Type ℓ
  Distinct [] = Unit
  Distinct ((k, _) ∷ d) = (lookup k d ≡ none) × Distinct d

  pub lookup-insert :
      (k j : ℕ) (v : V) (d : Table V)
      → lookup j (insert k v d) ≡ (if k == j then some v else lookup j d)
  lookup-insert k j v [] = refl
  lookup-insert k j v ((i, w) ∷ d) = ground (arith, lookup-insert k j v d)

  pub lookup-erase :
      (k j : ℕ) (d : Table V) → lookup j (erase k d) ≡ (if k == j then none else lookup j d)
  lookup-erase k j [] = ground arith
  lookup-erase k j ((i, w) ∷ d) = ground (arith, lookup-erase k j d)

  pub insert-Distinct : (k : ℕ) (v : V) (d : Table V) → Distinct d → Distinct (insert k v d)
  insert-Distinct k v [] h = (refl, tt)
  insert-Distinct k v ((j, w) ∷ d) h =
      ground (arith, insert-Distinct k v d h.1, lookup-insert k j v d)

  pub erase-Distinct : (k : ℕ) (d : Table V) → Distinct d → Distinct (erase k d)
  erase-Distinct k [] h = tt
  erase-Distinct k ((j, w) ∷ d) h = ground (arith, erase-Distinct k d h.1, lookup-erase k j d)

  pub keys-map_values : (f : ℕ → V → V) (d : Table V) → keys (map_values f d) ≡ keys d
  keys-map_values f [] = refl
  keys-map_values f ((k, v) ∷ d) = rw (keys-map_values f d) refl

  -- What a function makes of the value of a key.
  abbrev pub applied : (V → V) → Option V → Option V
  applied f none = none
  applied f (some v) = some (f v)

  pub lookup-map_values :
      (f : ℕ → V → V) (k : ℕ) (d : Table V) → lookup k (map_values f d) ≡ applied (f k) (lookup k d)
  lookup-map_values f k [] = refl
  lookup-map_values f k ((j, v) ∷ d) = ground (arith, lookup-map_values f k d)

  pub lookup-map_values-none :
      (f : ℕ → V → V) (k : ℕ) (d : Table V) → lookup k d ≡ none → lookup k (map_values f d) ≡ none
  lookup-map_values-none f k d h = rw (lookup-map_values f k d, h) refl

  pub map_values-Distinct : (f : ℕ → V → V) (d : Table V) → Distinct d → Distinct (map_values f d)
  map_values-Distinct f [] h = tt
  map_values-Distinct f ((k, v) ∷ d) h =
      (lookup-map_values-none f k d h.0, map_values-Distinct f d h.1)
