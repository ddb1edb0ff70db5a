-- ===== src/Legacy/Objects.antt =====
-- testdata/parity/legacy.js: an object that shows a map of the service, and what a key finds in it.
use ticketbutler_proxy.Common.{◌≡◌, refl, false, some, [], ◌∷◌, arith}
use mathlib.Core.Option
use ticketbutler_proxy.Dict.{Dict, lookup, insert, index}
use ticketbutler_proxy.Text.{Text}
use ticketbutler_proxy.Legacy.{row_or}
use ticketbutler_proxy.Legacy.Runtime.{Js, get}

unfoldable pub map_values {ℓ κ} : {V : Type ℓ} {W : Type κ} → (V → W) → Dict V → Dict W
map_values f [] = []
map_values f ((key, v) ∷ m) = (key, f v) ∷ map_values f m

module _ {ℓ κ} {V : Type ℓ} {W : Type κ} (f : V → W) where
  lookup-map_values :
      (key : Text) (m : Dict V) → lookup key (map_values f m) ≡ Option.map f (lookup key m)
  unfolding lookup map_values
  lookup-map_values key [] = refl
  lookup-map_values key ((k, v) ∷ m) = ground (arith, lookup-map_values key m)

  pub map_values-insert :
      (key : Text) (v : V) (m : Dict V)
      → map_values f (insert key v m) ≡ insert key (f v) (map_values f m)
  unfolding insert map_values
  map_values-insert key v [] = refl
  map_values-insert key v ((k, w) ∷ m) = ground (arith, map_values-insert key v m)

  -- The row under a key, or a new one, shows the value under that key, or the zero value.
  pub row_or-index :
      (js : Js) (zero_value : V) (key : Text) (m : Dict V)
      → js.inherited key ≡ false
      → row_or (f zero_value) (get js key (map_values f m)) ≡ some (f (index zero_value key m))
  unfolding get row_or
  row_or-index js zero_value key m plain = ground (arith, lookup-map_values key m)
