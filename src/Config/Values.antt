-- ===== src/Config/Values.antt =====
-- internal/config/config.go: the values of single settings. `Atoi` reads a 64-bit decimal integer.
use ticketbutler_proxy.Common.{
  ℕ, ◌+◌, ◌-◌, ◌*◌, ◌&&◌, Option, none, some, List, [], ◌∷◌, map, ltb, leb, ◌==◌, if◌then◌else◌,
}
use ticketbutler_proxy.Int.{ℤ, pos, sub_ℕ, int64_half}
use ticketbutler_proxy.Text.{Text, codes, text_eq, split, trim_space, CaseTable, to_lower}

pub data ConfigError : Type 0 where
  -- `%s must be positive`
  not_positive : Text → ConfigError
  -- the error of `time.ParseDuration`, behind the key
  bad_duration : Text → ConfigError
  -- `%q is not a number`, with the key
  bad_number : Text → Text → ConfigError
  -- `%s must be at least 1`
  too_small : Text → ℤ → ConfigError
  -- the errors that `validate` joins
  invalid : List Text → ConfigError

pub data Loaded (A : Type 0) : Type 0 where
  ok : A → Loaded A
  err : ConfigError → Loaded A

infixl 5 ◌>>=◌
abbrev pub ◌>>=◌ : {A B : Type 0} → Loaded A → (A → Loaded B) → Loaded B
ok a >>= f = f a
err e >>= f = err e

-- One round of the loop of `splitList`, before the rest.
unfoldable pub keep_part : Text → List Text → List Text
keep_part p out = if text_eq p [] then out else p ∷ out

-- The loop of `splitList`.
unfoldable pub keep_parts : List Text → List Text
unfolding keep_part
keep_parts [] = []
keep_parts (p ∷ parts) = keep_part (trim_space p) (keep_parts parts)

unfoldable pub split_list : Text → List Text
unfolding keep_parts
split_list s = keep_parts (split s (codes ","))

abbrev pub or_default : List Text → List Text → List Text
or_default [] def = def
or_default (t ∷ ts) def = t ∷ ts

unfoldable pub split_list_default : Text → Text → List Text
unfolding split_list
split_list_default s def = or_default (split_list s) (split_list def)

unfoldable pub lower : ⦃case : CaseTable⦄ → List Text → List Text
lower in_list = map to_lower in_list

unfoldable pub parse_merch_patterns : ⦃case : CaseTable⦄ → Text → List Text
unfolding lower split_list_default
parse_merch_patterns s = lower (split_list_default s (codes "hoodie"))

-- The value of decimal digits; `none` where another code point occurs.
unfoldable pub digits_value : ℕ → Text → Option ℕ
digits_value acc [] = some acc
digits_value acc (c ∷ s) =
    let rest = digits_value (acc * 10 + (c - b'0')) s in
    if leb b'0' c && leb c b'9' then rest else none

-- A number of at least one digit, in the range of its sign.
unfoldable pub magnitude : Text → Option ℕ
unfolding digits_value
magnitude [] = none
magnitude (c ∷ s) = digits_value 0 (c ∷ s)

unfoldable pub positive : Option ℕ → Option ℤ
positive none = none
positive (some n) = if ltb n int64_half then some (pos n) else none

unfoldable pub negative : Option ℕ → Option ℤ
negative none = none
negative (some n) = if leb n int64_half then some (sub_ℕ 0 n) else none

-- `strconv.Atoi`.
unfoldable pub atoi : Text → Option ℤ
unfolding magnitude positive negative
atoi [] = none
atoi (c ∷ s) =
    if c == b'-'
    then negative (magnitude s)
    else if c == b'+'
    then positive (magnitude s)
    else positive (magnitude (c ∷ s))

-- The loop of `ParseIntList`, with the key that its caller puts before its error.
unfoldable pub parse_ints : Text → List Text → Loaded (List ℤ)
parse_ints key [] = ok []
parse_ints key (part ∷ parts) = elim (atoi part) [
  | none ↦ err (bad_number key part)
  | some n ↦ parse_ints key parts >>= λ out. ok (n ∷ out)
]

unfoldable pub parse_int_list : Text → Text → Loaded (List ℤ)
unfolding parse_ints
parse_int_list key s = parse_ints key (split_list s)
