-- ===== src/RecordMap/Laws.antt =====
-- The laws of the map of RecordMap.antt.
use gokue.Prelude.{none, some, List, [], ◌∷◌, if◌then◌else◌, ◌≡◌, refl, arith}
use mathlib.Core.Option
use gokue.Prelude.Bytes.{Bytes, bytes_eq, bytes_eq_iff}
use gokue.RecordMap.{lookup, insert, erase, map_values, Distinct}

module _ {ℓ} {V : Type ℓ} where
  pub lookup-insert :
      (k j : Bytes) (v : V) (m : List (Bytes × V))
      → lookup j (insert k v m) ≡ (if bytes_eq k j then some v else lookup j m)
  unfolding lookup insert
  lookup-insert k j v [] = refl
  lookup-insert k j v ((i, w) ∷ m) =
      ground (arith, bytes_eq_iff k j, bytes_eq_iff i k, bytes_eq_iff i j, lookup-insert k j v m)

  pub lookup-erase :
      (k j : Bytes) (m : List (Bytes × V))
      → lookup j (erase k m) ≡ (if bytes_eq k j then none else lookup j m)
  unfolding lookup erase
  lookup-erase k j [] = ground arith
  lookup-erase k j ((i, w) ∷ m) =
      ground (arith, bytes_eq_iff k j, bytes_eq_iff i k, bytes_eq_iff i j, lookup-erase k j m)

  pub insert-Distinct :
      (k : Bytes) (v : V) (m : List (Bytes × V)) → Distinct m → Distinct (insert k v m)
  unfolding lookup insert
  insert-Distinct k v [] d = (refl, tt)
  insert-Distinct k v ((j, w) ∷ m) d =
      ground (
        arith,
        bytes_eq_iff j k,
        bytes_eq_iff k j,
        lookup-insert k j v m,
        insert-Distinct k v m d.1,
      )

  pub erase-Distinct : (k : Bytes) (m : List (Bytes × V)) → Distinct m → Distinct (erase k m)
  unfolding lookup erase
  erase-Distinct k [] d = tt
  erase-Distinct k ((j, w) ∷ m) d =
      ground (arith, bytes_eq_iff j k, bytes_eq_iff k j, lookup-erase k j m, erase-Distinct k m d.1)

module _ {ℓ κ} {V : Type ℓ} {W : Type κ} (f : V → W) where
  pub lookup-map_values :
      (k : Bytes) (m : List (Bytes × V)) → lookup k (map_values f m) ≡ Option.map f (lookup k m)
  unfolding lookup map_values
  lookup-map_values k [] = refl
  lookup-map_values k ((j, v) ∷ m) = ground (arith, lookup-map_values k m)

  pub map_values-Distinct : (m : List (Bytes × V)) → Distinct m → Distinct (map_values f m)
  unfolding lookup map_values
  map_values-Distinct [] d = tt
  map_values-Distinct ((j, v) ∷ m) d = (rw (lookup-map_values j m, d.0), map_values-Distinct m d.1)
