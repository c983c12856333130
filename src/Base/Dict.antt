-- ===== src/Base/Dict.antt =====
-- Go's `map[K]V` with byte-string keys, as an association list.
use mathlib.Core.Path.{◌≡◌, refl}
use mathlib.Core.Option.{Option, none, some}
use mathlib.Core.List.{List, [], ◌∷◌}
use native.Mathlib.Omega.{arith}
use uptime_service_backend.Base.Tests.{if◌then◌else◌}
use uptime_service_backend.Base.Text.{Bytes, equal, equal_iff}

abbrev pub Dict {ℓ} : Type ℓ → Type ℓ
Dict V = List (Bytes × V)

module _ {ℓ} {V : Type ℓ} where
  -- `m[k]`
  unfoldable pub lookup : Bytes → Dict V → Option V
  lookup k [] = none
  lookup k ((j, v) ∷ m) = if equal j k then some v else lookup k m

  -- `m[k] = v`
  unfoldable pub insert : Bytes → V → Dict V → Dict V
  insert k v [] = (k, v) ∷ []
  insert k v ((other, old) ∷ rest) =
      if equal other k then (k, v) ∷ rest else (other, old) ∷ insert k v rest

  pub lookup-insert :
      (k j : Bytes) (v : V) (dict : Dict V)
      → lookup j (insert k v dict) ≡ (if equal k j then some v else lookup j dict)
  unfolding lookup insert
  lookup-insert k j v [] = refl
  lookup-insert k j v ((other, old) ∷ rest) =
      ground (arith, lookup-insert k j v rest, equal_iff other k, equal_iff other j, equal_iff k j)
