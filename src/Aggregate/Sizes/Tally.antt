-- ===== src/Aggregate/Sizes/Tally.antt =====
-- internal/aggregate/sizes.go: a tally of sizes against a count of each known size in a list.
use ticketbutler_proxy.Common.{ℕ, ◌+◌, ◌≡◌, ◌∙◌, List, [], ◌∷◌, arith, if◌then◌else◌}
use ticketbutler_proxy.Text.{Text, codes, text_eq}
use ticketbutler_proxy.Text.Order.{text_eq_iff}
use ticketbutler_proxy.Aggregate.Sizes.{SizeCounts, no_sizes, add_size}

-- How often a text occurs in a list.
unfoldable pub count : Text → List Text → ℕ
count size [] = 0
count size (x ∷ xs) = if text_eq x size then count size xs + 1 else count size xs

abbrev pub tally_from : SizeCounts → List Text → SizeCounts
tally_from s xs = record {
  small = s.small + count (codes "small") xs;
  medium = s.medium + count (codes "medium") xs;
  large = s.large + count (codes "large") xs;
  xl = s.xl + count (codes "xl") xs;
  xxl = s.xxl + count (codes "2xl") xs;
  xxxl = s.xxxl + count (codes "3xl") xs;
}

-- The tally of a list: each field is the number of occurrences of its size.
abbrev pub tally : List Text → SizeCounts
tally xs = tally_from no_sizes xs

unfoldable pub add_sizes : SizeCounts → List Text → SizeCounts
add_sizes s [] = s
add_sizes s (x ∷ xs) = add_sizes (add_size s x).0 xs

tally_from-add_size :
    (s : SizeCounts) (x : Text) (xs : List Text)
    → tally_from (add_size s x).0 xs ≡ tally_from s (x ∷ xs)
unfolding add_size count
tally_from-add_size s x xs = ground (
  arith,
  text_eq_iff x (codes "small"),
  text_eq_iff x (codes "medium"),
  text_eq_iff x (codes "large"),
  text_eq_iff x (codes "xl"),
  text_eq_iff x (codes "2xl"),
  text_eq_iff x (codes "3xl"),
)

pub add_sizes-eq-tally_from : (s : SizeCounts) (xs : List Text) → add_sizes s xs ≡ tally_from s xs
unfolding add_sizes count
add_sizes-eq-tally_from s [] = ground arith
add_sizes-eq-tally_from s (x ∷ xs) =
    add_sizes-eq-tally_from (add_size s x).0 xs ∙ tally_from-add_size s x xs
