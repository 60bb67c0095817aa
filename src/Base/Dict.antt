-- ===== src/Base/Dict.antt =====
-- Go maps with text keys, as association lists. The code here ranges over no such map, so the
-- order of the entries cannot be observed.
use mathlib.Core.Path.{◌≡◌, refl}
use mathlib.Core.Option.{Option, none, some}
use mathlib.Core.List.{List, [], ◌∷◌}
use native.Mathlib.Omega.{arith}
use mysql_pitr.Base.Tests.{if◌then◌else◌}
use mysql_pitr.Base.Text.{Text, text_eq, text_eq_iff, text_eq_refl}

module _ {ℓ} {V : Type ℓ} where
  unfoldable pub lookup : Text → List (Text × V) → Option V
  lookup k [] = none
  lookup k ((j, v) ∷ m) = if text_eq j k then some v else lookup k m

  unfoldable pub insert : Text → V → List (Text × V) → List (Text × V)
  insert k v [] = (k, v) ∷ []
  insert k v ((j, w) ∷ m) = if text_eq j k then (k, v) ∷ m else (j, w) ∷ insert k v m

  pub delete : Text → List (Text × V) → List (Text × V)
  delete k [] = []
  delete k ((j, w) ∷ m) = let rest = delete k m in if text_eq j k then rest else (j, w) ∷ rest

  pub lookup-insert :
      (k j : Text) (v : V) (m : List (Text × V))
      → lookup j (insert k v m) ≡ (if text_eq k j then some v else lookup j m)
  unfolding lookup insert
  lookup-insert k j v [] = refl
  lookup-insert k j v ((i, w) ∷ m) =
      ground (arith, text_eq_iff k j, text_eq_iff i k, text_eq_iff i j, lookup-insert k j v m)

  pub lookup-delete :
      (k j : Text) (m : List (Text × V))
      → lookup j (delete k m) ≡ (if text_eq k j then none else lookup j m)
  unfolding lookup delete
  lookup-delete k j [] = ground arith
  lookup-delete k j ((i, w) ∷ m) =
      ground (arith, text_eq_iff k j, text_eq_iff i k, text_eq_iff i j, lookup-delete k j m)

  pub lookup-insert_self :
      (k : Text) (v : V) (m : List (Text × V)) → lookup k (insert k v m) ≡ some v
  lookup-insert_self k v m = ground (arith, lookup-insert k k v m, text_eq_refl k)

  pub lookup-delete_self : (k : Text) (m : List (Text × V)) → lookup k (delete k m) ≡ none
  lookup-delete_self k m = ground (arith, lookup-delete k k m, text_eq_refl k)
