-- ===== src/Text/Defs.antt =====
-- `strings.TrimSpace`, `ToLower`, `Contains`, `Split`, `Join`, `Cut`, `TrimRight`, `EqualFold`,
-- the comparison of strings, and `len`.
use Prim.Native.Char.{code}
use ticketbutler_proxy.Common.{
  ℕ, zero, suc, ◌+◌, ◌-◌, ◌<◌, ◌≡◌, String, Bool, true, false, ◌&&◌, ◌||◌, List, [], ◌∷◌, ◌++◌, map,
  ltb, leb, ◌==◌, length, if◌then◌else◌,
}

abbrev pub Text : Type 0
Text = List ℕ

-- The code points of a literal.
abbrev pub codes : String → Text
codes String.[] = []
codes (String.◌∷◌ c s) = code c ∷ codes s

-- `s == t` on strings.
unfoldable pub text_eq : Text → Text → Bool
text_eq [] [] = true
text_eq (c ∷ s) (d ∷ t) = c == d && text_eq s t
text_eq _ _ = false

-- `s < t` on strings. UTF-8 keeps the order of the code points.
unfoldable pub text_lt : Text → Text → Bool
text_lt [] [] = false
text_lt [] (d ∷ t) = true
text_lt (c ∷ s) [] = false
text_lt (c ∷ s) (d ∷ t) = ltb c d || (c == d && text_lt s t)

-- `unicode.IsSpace`: the code points with the property White_Space.
unfoldable pub is_space : ℕ → Bool
is_space c =
    (leb 9 c && leb c 13)
    || c == 32
    || c == 0x85
    || c == 0xa0
    || c == 0x1680
    || (leb 0x2000 c && leb c 0x200a)
    || c == 0x2028
    || c == 0x2029
    || c == 0x202f
    || c == 0x205f
    || c == 0x3000

unfoldable pub trim_left : Text → Text
trim_left [] = []
trim_left (c ∷ s) = if is_space c then trim_left s else c ∷ s

-- `c ∷ s` without its trailing white space, where `s` has none left.
unfoldable pub cons_trimmed : ℕ → Text → Text
cons_trimmed c [] = if is_space c then [] else c ∷ []
cons_trimmed c (d ∷ s) = c ∷ d ∷ s

unfoldable pub trim_end : Text → Text
trim_end [] = []
trim_end (c ∷ s) = cons_trimmed c (trim_end s)

-- `strings.TrimSpace`.
unfoldable pub trim_space : Text → Text
trim_space s = trim_end (trim_left s)

-- `strings.TrimRight(s, "/")` for a cut set of one code point.
unfoldable pub cons_cut : ℕ → ℕ → Text → Text
cons_cut cut c [] = if c == cut then [] else c ∷ []
cons_cut cut c (d ∷ s) = c ∷ d ∷ s

unfoldable pub trim_right : Text → ℕ → Text
trim_right [] cut = []
trim_right (c ∷ s) cut = cons_cut cut c (trim_right s cut)

unfoldable pub has_prefix : Text → Text → Bool
has_prefix s [] = true
has_prefix [] (p ∷ ps) = false
has_prefix (c ∷ s) (p ∷ ps) = c == p && has_prefix s ps

-- `strings.Contains(s, substr)`.
unfoldable pub contains : Text → Text → Bool
unfolding has_prefix
contains [] p = has_prefix [] p
contains (c ∷ s) p = has_prefix (c ∷ s) p || contains s p

abbrev pub cons_head : ℕ → List Text → List Text
cons_head c [] = (c ∷ []) ∷ []
cons_head c (part ∷ parts) = (c ∷ part) ∷ parts

-- `strings.Split(s, sep)` for a separator that is not empty; `skip` code points of a separator
-- that was found are still to be passed over.
unfoldable pub split_from : Text → ℕ → Text → List Text
unfolding has_prefix
split_from sep skip [] = [] ∷ []
split_from sep (suc skip) (c ∷ s) = split_from sep skip s
split_from sep zero (c ∷ s) = elim (has_prefix (c ∷ s) sep) [
  | true ↦ [] ∷ split_from sep (length sep - 1) s
  | false ↦ cons_head c (split_from sep 0 s)
]

unfoldable pub split : Text → Text → List Text
unfolding split_from
split s sep = split_from sep 0 s

-- `strings.Join(parts, sep)`.
unfoldable pub join : List Text → Text → Text
join [] sep = []
join (part ∷ []) sep = part
join (part ∷ next ∷ parts) sep = part ++ (sep ++ join (next ∷ parts) sep)

-- `strings.Cut(s, sep)` for a separator of one code point: before, after, found.
unfoldable pub cut : Text → ℕ → Text × Text × Bool
cut [] sep = ([], [], false)
cut (c ∷ s) sep =
    let rest = cut s sep in if c == sep then ([], s, true) else (c ∷ rest.0, rest.1, rest.2)

abbrev pub is_upper : ℕ → Bool
is_upper c = leb b'A' c && leb c b'Z'

unfoldable pub ascii_lower : ℕ → ℕ
ascii_lower c = if is_upper c then c + 32 else c

-- Two code points that `strings.EqualFold` identifies, where `d` is ASCII: equal up to ASCII case,
-- or the long s with s, or the Kelvin sign with k.
unfoldable pub rune_fold_eq : ℕ → ℕ → Bool
unfolding ascii_lower
rune_fold_eq c d =
    ascii_lower c == ascii_lower d
    || (c == 0x17f && ascii_lower d == b's')
    || (c == 0x212a && ascii_lower d == b'k')

-- `strings.EqualFold(s, t)` for an ASCII text `t`.
unfoldable pub equal_fold : Text → Text → Bool
unfolding rune_fold_eq
equal_fold [] [] = true
equal_fold (c ∷ s) (d ∷ t) = rune_fold_eq c d && equal_fold s t
equal_fold _ _ = false

-- The bytes of a code point in UTF-8, and `len(s)`.
unfoldable pub rune_len : ℕ → ℕ
rune_len c = if ltb c 0x80 then 1 else if ltb c 0x800 then 2 else if ltb c 0x10000 then 3 else 4

unfoldable pub byte_length : Text → ℕ
unfolding rune_len
byte_length [] = 0
byte_length (c ∷ s) = rune_len c + byte_length s

-- The simple lower-case mapping of `unicode.ToLower`, whose table is not part of the source, with
-- what the Unicode data file says of it.
pub record CaseTable : Type 0 where
  pub lower_rune : ℕ → ℕ
  pub lower_rune_idem : (c : ℕ) → lower_rune (lower_rune c) ≡ lower_rune c
  pub is_space-lower_rune : (c : ℕ) → is_space (lower_rune c) ≡ is_space c
  pub lower_rune_ascii : (c : ℕ) → c < 128 → lower_rune c ≡ ascii_lower c

-- `strings.ToLower`.
unfoldable pub to_lower : ⦃case : CaseTable⦄ → Text → Text
to_lower ⦃case⦄ s = map case.lower_rune s

-- Opens what runs a text function on a literal.
unfoldable pub text_functions : Unit {0}
unfolding text_eq text_lt is_space trim_left cons_trimmed trim_end trim_space cons_cut trim_right
    has_prefix contains split_from split join cut ascii_lower rune_fold_eq equal_fold rune_len
    byte_length to_lower
text_functions = tt
