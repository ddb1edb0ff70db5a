-- ===== src/Legacy/Names.antt =====
-- testdata/parity/legacy.js: what the script reads off a ticket type's name, and the sizes that it
-- counts for it.
use ticketbutler_proxy.Common.{
  ℕ, ◌≡◌, refl, sym, ap, true, false, Option, none, some, List, [], ◌∷◌, arith, inl, inr, All,
  Bool-cases, Bool, if◌then◌else◌,
}
use ticketbutler_proxy.Dict.{Dict, insert, index}
use ticketbutler_proxy.Text.{Text, codes, text_eq, contains, CaseTable, to_lower}
use ticketbutler_proxy.Aggregate.Sizes.{SizeCounts, no_sizes, add_size}
use ticketbutler_proxy.Aggregate.Summary.{
  separator, matches_pattern, product_and_size, split_merch, add_merch,
}
use ticketbutler_proxy.Legacy.{read_parts, read_name, count_size, count_merch}
use ticketbutler_proxy.Legacy.Runtime.{Js, is_plain, IsPlain, IsJs}
use ticketbutler_proxy.Legacy.Plain.{split-All, last_part-All, join-all_but_last-All}
use ticketbutler_proxy.Legacy.Sizes.{counts_of, script_size_lem, bump-add_size}
use ticketbutler_proxy.Legacy.Objects.{map_values, map_values-insert, row_or-index}

-- The pattern that the script has built in.
abbrev pub hoodie : List Text
hoodie = codes "hoodie" ∷ []

abbrev or_empty : Option Text → Text
or_empty none = []
or_empty (some size) = size

-- The same product, the same size, and the same answer whether it is merchandise.
abbrev pub SameName : Text × Option Text × Bool → Text × Text × Bool → Type 0
SameName (p, s, m) (p', s', m') = (p ≡ p') × (or_empty s ≡ s') × (m ≡ m')

matches_pattern-hoodie :
    (lower : Text) → matches_pattern lower hoodie ≡ contains lower (codes "hoodie")
unfolding matches_pattern text_eq
matches_pattern-hoodie lower = ground arith

separator-IsPlain : IsPlain separator
unfolding is_plain
separator-IsPlain = (refl, (refl, (refl, tt)))

product_and_size-merch :
    ⦃case : CaseTable⦄ (name : Text) (parts : List Text) → (product_and_size name parts).2 ≡ true
unfolding product_and_size
product_and_size-merch name [] = refl
product_and_size-merch name (part ∷ []) = refl
product_and_size-merch name (part ∷ next ∷ parts) = refl

-- A name that is none of merchandise is kept.
pub split_merch-kept :
    ⦃case : CaseTable⦄ (name : Text) (patterns : List Text)
    → (if (split_merch name patterns).2 then (split_merch name patterns).0 else name)
      ≡ (split_merch name patterns).0
unfolding split_merch
split_merch-kept name patterns = elim (Bool-cases (matches_pattern (to_lower name) patterns)) [
  | inl merch ↦ rw (merch, product_and_size-merch) refl
  | inr other ↦ rw other refl
]

module _ ⦃case : CaseTable⦄ (js : Js) (runtime : IsJs js) where
  read_parts_lem :
      (name : Text) (parts : List Text)
      → All (λ part. IsPlain part) parts
      → SameName
          ((read_parts js name parts).0, (read_parts js name parts).1, true)
          (product_and_size name parts)
  unfolding read_parts product_and_size
  read_parts_lem name [] h = (refl, refl, refl)
  read_parts_lem name (part ∷ []) h = (refl, refl, refl)
  read_parts_lem name (part ∷ next ∷ parts) h = (
    runtime.trim-eq _ (join-all_but_last-All _ (part ∷ next ∷ parts) separator separator-IsPlain h),
    script_size_lem js runtime _ (last_part-All _ (part ∷ next ∷ parts) h),
    refl,
  )

  pub read_name_lem :
      (name : Text) → IsPlain name → SameName (read_name js name) (split_merch name hoodie)
  unfolding read_name split_merch
  read_name_lem name h =
      rw (runtime.to_lower_case-eq name h, matches_pattern-hoodie (to_lower name))
        (elim (Bool-cases (contains (to_lower name) (codes "hoodie"))) [
          | inl merch ↦ rw merch (read_parts_lem name _ (split-All _ name separator h))
          | inr other ↦ rw other (refl, refl, refl)
        ])

-- The object that shows the merchandise of a summary.
abbrev pub merch_object : Dict SizeCounts → Dict (Dict ℕ)
merch_object merch = map_values counts_of merch

module _ (js : Js) where
  count_size_lem :
      (product size : Text) (merch : Dict SizeCounts)
      → js.inherited product ≡ false
      → js.inherited size ≡ false
      → count_size js product size (merch_object merch)
        ≡ some
            (merch_object (insert product (add_size (index no_sizes product merch) size).0 merch))
  unfolding count_size
  count_size_lem product size merch h k =
      rw
        (
          row_or-index counts_of js no_sizes product merch h,
          bump-add_size js size (index no_sizes product merch) k,
        )
        (ap some (sym (map_values-insert counts_of product _ merch)))

  count_merch-some :
      (product size : Text) (is_merch : Bool) (merch : Dict SizeCounts)
      → js.inherited product ≡ false
      → js.inherited size ≡ false
      → count_merch js (product, some size, is_merch) (merch_object merch)
        ≡ some (merch_object (add_merch (product, size, is_merch) merch))
  unfolding count_merch add_merch
  count_merch-some product size is_merch merch h k =
      ground (arith, count_size_lem product size merch h k)

  pub count_merch_lem :
      (name : Text × Option Text × Bool) (product size : Text) (is_merch : Bool)
      (merch : Dict SizeCounts)
      → SameName name (product, size, is_merch)
      → js.inherited product ≡ false
      → js.inherited size ≡ false
      → count_merch js name (merch_object merch)
        ≡ some (merch_object (add_merch (product, size, is_merch) merch))
  unfolding count_merch add_merch text_eq
  count_merch_lem (p, none, m) product size is_merch merch (e, f, g) h k = rw (← f) (ground arith)
  count_merch_lem (p, some s, m) product size is_merch merch (e, f, g) h k =
      rw (e, f, g) (count_merch-some product size is_merch merch h k)
