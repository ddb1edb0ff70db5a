-- ===== src/Aggregate/Sizes.antt =====
-- internal/aggregate/sizes.go: the tally of garment sizes, and the spellings of a size.
pub mod Tally
pub mod Spelling
use ticketbutler_proxy.Common.{ℕ, ◌+◌, Bool, true, false, ◌||◌, if◌then◌else◌}
use ticketbutler_proxy.Text.{Text, codes, text_eq, trim_space, CaseTable, to_lower}

pub record SizeCounts : Type 0 where
  pub small : ℕ
  pub medium : ℕ
  pub large : ℕ
  pub xl : ℕ
  pub xxl : ℕ
  pub xxxl : ℕ

-- The zero value `SizeCounts{}`.
abbrev pub no_sizes : SizeCounts
no_sizes = record { small = 0; medium = 0; large = 0; xl = 0; xxl = 0; xxxl = 0 }

-- The method's receiver is a pointer: the new tally stands beside the result.
unfoldable pub add_size : SizeCounts → Text → SizeCounts × Bool
add_size s size =
    if text_eq size (codes "small")
    then (record s { small = s.small + 1 }, true)
    else if text_eq size (codes "medium")
    then (record s { medium = s.medium + 1 }, true)
    else if text_eq size (codes "large")
    then (record s { large = s.large + 1 }, true)
    else if text_eq size (codes "xl")
    then (record s { xl = s.xl + 1 }, true)
    else if text_eq size (codes "2xl")
    then (record s { xxl = s.xxl + 1 }, true)
    else if text_eq size (codes "3xl")
    then (record s { xxxl = s.xxxl + 1 }, true)
    else (s, false)

unfoldable pub total : SizeCounts → ℕ
total s = s.small + s.medium + s.large + s.xl + s.xxl + s.xxxl

-- The switch of `NormalizeSize`.
unfoldable pub canonical_size : Text → Text
canonical_size s =
    if text_eq s (codes "s") || text_eq s (codes "small")
    then codes "small"
    else if text_eq s (codes "m") || text_eq s (codes "medium")
    then codes "medium"
    else if text_eq s (codes "l") || text_eq s (codes "large")
    then codes "large"
    else if text_eq s (codes "xl") || text_eq s (codes "extra large")
    then codes "xl"
    else if text_eq s (codes "2xl") || text_eq s (codes "xxl")
    then codes "2xl"
    else if text_eq s (codes "3xl") || text_eq s (codes "xxxl")
    then codes "3xl"
    else s

unfoldable pub normalize_size : ⦃case : CaseTable⦄ → Text → Text
unfolding canonical_size to_lower
normalize_size size = canonical_size (to_lower (trim_space size))
