-- ===== src/RecordMap.antt =====
-- The Go map `map[job.ID]V` of backend/memory.go as an association list, in the order in which a
-- `range` happens to visit it.
pub mod Laws
use gokue.Prelude.{Bool, true, false, Option, none, some, List, [], ◌∷◌, if◌then◌else◌, ◌≡◌}
use gokue.Prelude.Bytes.{Bytes, bytes_eq}

module _ {ℓ} {V : Type ℓ} where
  unfoldable pub lookup : Bytes → List (Bytes × V) → Option V
  lookup k [] = none
  lookup k ((j, v) ∷ m) = if bytes_eq j k then some v else lookup k m

  unfoldable pub insert : Bytes → V → List (Bytes × V) → List (Bytes × V)
  insert k v [] = (k, v) ∷ []
  insert k v ((j, w) ∷ m) = if bytes_eq j k then (k, v) ∷ m else (j, w) ∷ insert k v m

  -- `delete(m, k)`
  unfoldable pub erase : Bytes → List (Bytes × V) → List (Bytes × V)
  erase k [] = []
  erase k ((j, w) ∷ m) = if bytes_eq j k then erase k m else (j, w) ∷ erase k m

  -- A loop that assigns to each key that it visits.
  unfoldable pub map_values {κ} : {W : Type κ} → (V → W) → List (Bytes × V) → List (Bytes × W)
  map_values f [] = []
  map_values f ((j, v) ∷ m) = (j, f v) ∷ map_values f m

  -- No key stands twice, as in every Go map.
  abbrev pub Distinct : List (Bytes × V) → Type ℓ
  Distinct [] = Unit
  Distinct ((j, v) ∷ m) = (lookup j m ≡ none) × Distinct m
