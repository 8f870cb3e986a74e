-- ===== src/Base/Dict.antt =====
-- Go's `map[string]V` as an association list with one entry for a key. Proofs about its clients
-- use the laws.
use Prim.Native.String.{String}
use mathlib.Core.Path.{◌≡◌, refl, subst}
use mathlib.Core.Logic.{inl, inr}
use mathlib.Core.List.{List, [], ◌∷◌}
use mathlib.Core.Option.{Option, none, some, some-injective}
use native.Mathlib.Omega.{arith}
use text.Mathlib.TextEquality.{eq_iff}
use text.Mathlib.TextPositions.{eq_refl}
use influxdb_desk.Base.Tests.{str_eq, Bool-cases, if◌then◌else◌}

abbrev pub Dict {ℓ} : Type ℓ → Type ℓ
Dict V = List (String × V)

module _ {ℓ} {V : Type ℓ} where
  -- m[k]
  unfoldable pub lookup : String → Dict V → Option V
  lookup k [] = none
  lookup k ((j, v) ∷ m) = if str_eq j k then some v else lookup k m

  -- m[k] = v
  unfoldable pub insert : String → V → Dict V → Dict V
  insert k v [] = (k, v) ∷ []
  insert k v ((j, w) ∷ m) = if str_eq j k then (k, v) ∷ m else (j, w) ∷ insert k v m

  -- delete(m, k)
  unfoldable pub remove : String → Dict V → Dict V
  remove k [] = []
  remove k ((j, w) ∷ m) = let rest = remove k m in if str_eq j k then rest else (j, w) ∷ rest

  -- `for k, v := range m { m[k] = f(v) }`
  unfoldable pub map_values : (V → V) → Dict V → Dict V
  map_values f [] = []
  map_values f ((j, w) ∷ m) = (j, f w) ∷ map_values f m

  pub lookup-insert :
      (k j : String) (v : V) (m : Dict V)
      → lookup j (insert k v m) ≡ (if str_eq k j then some v else lookup j m)
  unfolding insert lookup
  lookup-insert key other v [] = refl
  lookup-insert key other v ((first, w) ∷ rest) = ground (
    arith,
    lookup-insert key other v rest,
    eq_iff first other,
    eq_iff first key,
    eq_iff key other,
  )

  pub lookup-insert_self : (k : String) (v : V) (m : Dict V) → lookup k (insert k v m) ≡ some v
  lookup-insert_self k v m = simp (lookup-insert, eq_refl)

  pub lookup-remove :
      (k j : String) (m : Dict V)
      → lookup j (remove k m) ≡ (if str_eq k j then none else lookup j m)
  unfolding lookup remove
  lookup-remove k j [] = ground arith
  lookup-remove k j ((i, w) ∷ m) =
      ground (arith, eq_iff k j, eq_iff i k, eq_iff i j, lookup-remove k j m)

  pub lookup-map_values :
      (f : V → V) (j : String) (m : Dict V)
      → lookup j (map_values f m) ≡ elim (lookup j m) [ none ↦ none | some v ↦ some (f v) ]
  unfolding lookup map_values
  lookup-map_values f j [] = refl
  lookup-map_values f j ((i, w) ∷ m) = ground (arith, lookup-map_values f j m)

  -- Every value satisfies `P`.
  abbrev pub Values {κ} : (V → Type κ) → Dict V → Type κ
  Values P [] = Unit
  Values P ((j, v) ∷ m) = P v × Values P m

module _ {ℓ κ} {V : Type ℓ} (P : V → Type κ) where
  pub lookup-Values : (k : String) (m : Dict V) {v : V} → Values P m → lookup k m ≡ some v → P v
  unfolding lookup
  lookup-Values k [] h e = cc
  lookup-Values k ((j, w) ∷ m) {v = v} h e = elim (Bool-cases (str_eq j k)) [
    | inl hit ↦ subst P (some-injective w v (rw hit at e)) h.0
    | inr miss ↦ lookup-Values k m h.1 (rw miss at e)
  ]

  pub insert-Values : (k : String) (v : V) (m : Dict V) → P v → Values P m → Values P (insert k v m)
  unfolding insert
  insert-Values k v [] p h = (p, tt)
  insert-Values k v ((j, w) ∷ m) p h = elim (Bool-cases (str_eq j k)) [
    | inl hit ↦ rw hit (p, h.1)
    | inr miss ↦ rw miss (h.0, insert-Values k v m p h.1)
  ]

  pub remove-Values : (k : String) (m : Dict V) → Values P m → Values P (remove k m)
  unfolding remove
  remove-Values k [] h = tt
  remove-Values k ((j, w) ∷ m) h = elim (Bool-cases (str_eq j k)) [
    | inl hit ↦ rw hit (remove-Values k m h.1)
    | inr miss ↦ rw miss (h.0, remove-Values k m h.1)
  ]

  pub map_values-Values :
      (f : V → V) (m : Dict V) → ((v : V) → P v → P (f v)) → Values P m → Values P (map_values f m)
  unfolding map_values
  map_values-Values f [] keep h = tt
  map_values-Values f ((j, w) ∷ m) keep h = (keep w h.0, map_values-Values f m keep h.1)
