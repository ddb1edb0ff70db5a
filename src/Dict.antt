-- ===== src/Dict.antt =====
-- A Go map with string keys, as an association list: the service reads and writes its maps by key
-- and never walks one.
use ticketbutler_proxy.Common.{◌≡◌, refl, Option, none, some, List, [], ◌∷◌, arith, if◌then◌else◌}
use ticketbutler_proxy.Text.{Text, text_eq}
use ticketbutler_proxy.Text.Order.{text_eq_iff}

abbrev pub Dict {ℓ} : Type ℓ → Type ℓ
Dict V = List (Text × V)

module _ {ℓ} {V : Type ℓ} where
  unfoldable pub lookup : Text → Dict V → Option V
  lookup k [] = none
  lookup k ((j, v) ∷ m) = if text_eq j k then some v else lookup k m

  unfoldable pub insert : Text → V → Dict V → Dict V
  insert k v [] = (k, v) ∷ []
  insert k v ((j, w) ∷ m) = if text_eq j k then (k, v) ∷ m else (j, w) ∷ insert k v m

  -- `m[k]`, which is the zero value of its type where the key is missing.
  abbrev pub index : V → Text → Dict V → V
  index zero_value k m = elim (lookup k m) [ none ↦ zero_value | some v ↦ v ]

  pub lookup-insert :
      (k j : Text) (v : V) (m : Dict V)
      → lookup j (insert k v m) ≡ (if text_eq k j then some v else lookup j m)
  unfolding lookup insert
  lookup-insert k j v [] = refl
  lookup-insert k j v ((i, w) ∷ m) =
      ground (arith, text_eq_iff k j, text_eq_iff i k, text_eq_iff i j, lookup-insert k j v m)

  pub index-insert :
      (zero_value : V) (k j : Text) (v : V) (m : Dict V)
      → index zero_value j (insert k v m) ≡ (if text_eq k j then v else index zero_value j m)
  index-insert zero_value k j v m = ground (arith, lookup-insert k j v m)
