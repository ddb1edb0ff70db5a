-- ===== src/Legacy/Runtime.antt =====
-- testdata/parity/legacy.js: what the script uses of the language, functions of `String.prototype`
-- and objects as dictionaries.
use ticketbutler_proxy.Common.{
  leb, [], ◌≢◌, ℕ, ◌≡◌, Bool, true, not, ◌&&◌, ◌||◌, none, some, ◌==◌, ltb, All, Option,
  if◌then◌else◌,
}
use ticketbutler_proxy.Json.Value.{Json, text, number}
use ticketbutler_proxy.Int.{pos}
use ticketbutler_proxy.Float.{Float}
use ticketbutler_proxy.Dict.{Dict, lookup}
use ticketbutler_proxy.Text.{Text, trim_space, text_lt, CaseTable, to_lower}

-- The runtime of the script. A text is the list of its code points.
pub record Js : Type 0 where
  -- `s.toLowerCase()` and `s.trim()`
  pub to_lower_case : Text → Text
  pub trim : Text → Text
  -- `s < t`, which compares UTF-16 code units
  pub less : Text → Text → Bool
  -- the names of the properties that every object has from `Object.prototype`
  pub inherited : Text → Bool

-- A property that holds an amount, as it stands in the JSON, and none where it is missing.
abbrev pub Raw : Type 0
Raw = Option Json

-- Numbers in the script, which are `F`.
pub record Numbers (F : Type 0) : Type 0 where
  -- `parseFloat(v)`, which is NaN for null, for what is missing and for a text without a number
  pub parse_float : Raw → F
  -- `1 + v`
  pub one_plus : Raw → F

-- The characters of a decimal number.
unfoldable pub is_decimal : ℕ → Bool
is_decimal c = (leb b'0' c && leb c b'9') || c == b'.' || c == b'-' || c == b'e'

abbrev pub IsDecimal : Text → Type 0
IsDecimal s = (s ≢ []) × All (λ c. is_decimal c ≡ true) s

-- What both languages document of a decimal number that `strconv.ParseFloat` reads, in a string or on its own:
-- they read it as the same float64.
pub record IsNumbers {F : Type 0} ⦃float : Float F⦄ (numbers : Numbers F) : Type 0 where
  pub parse_float-text :
      (s : Text) (x : F)
      → IsDecimal s
      → float.parse s ≡ some x
      → numbers.parse_float (some (text s)) ≡ x
  pub parse_float-number :
      (s : Text) (x : F)
      → IsDecimal s
      → float.parse s ≡ some x
      → numbers.parse_float (some (number s)) ≡ x
  pub one_plus-number :
      (s : Text) (x : F)
      → IsDecimal s
      → float.parse s ≡ some x
      → numbers.one_plus (some (number s)) ≡ float.add (float.of_int (pos 1)) x

-- The code points on which the two languages agree: none beyond the Basic Multilingual Plane, where
-- UTF-16 orders otherwise; neither U+0085 nor U+FEFF, of which either is white space for one of them
-- alone; and neither U+0130 nor U+03A3, which JavaScript lowers by a special rule.
unfoldable pub is_plain : ℕ → Bool
is_plain c = ltb c 0x10000 && not (c == 0x85 || c == 0xfeff || c == 0x130 || c == 0x3a3)

abbrev pub IsPlain : Text → Type 0
IsPlain s = All (λ c. is_plain c ≡ true) s

-- What both languages document of such texts.
pub record IsJs ⦃case : CaseTable⦄ (js : Js) : Type 0 where
  pub to_lower_case-eq : (s : Text) → IsPlain s → js.to_lower_case s ≡ to_lower s
  pub trim-eq : (s : Text) → IsPlain s → js.trim s ≡ trim_space s
  pub less-eq : (s t : Text) → IsPlain s → IsPlain t → js.less s t ≡ text_lt s t
  pub lower_plain : (s : Text) → IsPlain s → IsPlain (to_lower s)

-- What `object[key]` finds: nothing, a property of the object, or one that it inherits.
pub data Property {ℓ} (V : Type ℓ) : Type ℓ where
  undefined : Property V
  own : V → Property V
  proto : Property V

unfoldable pub get {ℓ} : {V : Type ℓ} → Js → Text → Dict V → Property V
get js key object = elim (lookup key object) [
  | some v ↦ own v
  | none ↦ if js.inherited key then proto else undefined
]
