-- ===== src/Float.antt =====
-- What the service does with a `float64`: constants, arithmetic, comparisons, conversions, and the
-- decimal reading and writing of `strconv` and encoding/json. No law of rounding is assumed.
pub mod Milli
use ticketbutler_proxy.Common.{◌≡◌, ◌≢◌, Bool, Option, some, [], All}
use ticketbutler_proxy.Int.{ℤ}
use ticketbutler_proxy.Text.{Text, codes}

pub record Float (F : Type 0) : Type 0 where
  pub zero_float : F
  pub add : F → F → F
  pub div : F → F → F
  pub lt : F → F → Bool
  pub eq : F → F → Bool
  pub of_int : ℤ → F
  -- `int64(x)`
  pub truncate : F → ℤ
  -- `strconv.ParseFloat(s, 64)`, and `strconv.FormatFloat(x, 'f', 2, 64)`
  pub parse : Text → Option F
  pub format_cents : F → Text
  -- the literal that encoding/json writes, and none for what is not finite
  pub print_json : F → Option Text

-- What strconv documents of its texts: reading what is written gives the value back, to the cent where
-- two decimals are written, and such a text is a plain one.
pub record IsFloat {F : Type 0} (float : Float F) (cents : F → F) : Type 0 where
  pub parse-print_json : (x : F) (s : Text) → float.print_json x ≡ some s → float.parse s ≡ some x
  pub parse-format_cents : (x : F) → float.parse (float.format_cents x) ≡ some (cents x)
  pub format_cents-cents : (x : F) → float.format_cents (cents x) ≡ float.format_cents x
  pub format_cents-ne-nil : (x : F) → float.format_cents x ≢ []
  pub format_cents-ne-null : (x : F) → float.format_cents x ≢ codes "null"
  pub format_cents_plain : (x : F) → All (λ c. (c ≢ b'"') × (c ≢ 0x5c)) (float.format_cents x)
