-- ===== src/Aggregate/Summary/Names.antt =====
-- internal/aggregate/summary.go: what `splitMerch` reads off the name of a merchandise ticket.
use ticketbutler_proxy.Common.{
  ℕ, zero, suc, ◌-◌, ◌≡◌, ◌≢◌, refl, sym, ap, ◌∙◌, true, false, List, [], ◌∷◌, length, inl, inr,
  Bool-cases,
}
use mathlib.Core.Path.{subst}
use ticketbutler_proxy.Text.{
  Text, has_prefix, contains, cons_head, split_from, split, join, trim_space, CaseTable, to_lower,
}
use ticketbutler_proxy.Text.Split.{
  IsParts, split_from-IsParts, split_from-found, split_from-other, join-split_from, join-split,
  drop,
}
use ticketbutler_proxy.Aggregate.Summary.Cuts.{Cuts, AreClear, split_from-AreClear, join-Cuts}
use ticketbutler_proxy.Aggregate.Sizes.{normalize_size}
use ticketbutler_proxy.Aggregate.Summary.{
  all_but_last, last_part, separator, matches_pattern, product_and_size, split_merch,
}

has_prefix-nil : (sep : Text) → sep ≢ [] → has_prefix [] sep ≡ false
unfolding has_prefix
has_prefix-nil [] h = absurd (h refl)
has_prefix-nil (c ∷ sep) h = refl

last_part-cons :
    (p : Text) (parts : List Text) → IsParts parts → last_part (p ∷ parts) ≡ last_part parts
unfolding last_part IsParts
last_part-cons p [] h = absurd h
last_part-cons p (q ∷ parts) h = refl

-- One more code point at the head of a text's parts: the last part holds no separator, where it is
-- the whole text or stays as it was.
last_part-cons_head :
    (sep : Text) (c : ℕ) (s : Text) (parts : List Text)
    → join parts sep ≡ s
    → has_prefix (c ∷ s) sep ≡ false
    → contains (last_part parts) sep ≡ false
    → IsParts parts
    → contains (last_part (cons_head c parts)) sep ≡ false
unfolding last_part contains join IsParts
last_part-cons_head sep c s [] e h k m = absurd m
last_part-cons_head sep c s (p ∷ []) e h k m = rw (e, h) (rw (← e) k)
last_part-cons_head sep c s (p ∷ q ∷ parts) e h k m = k

last_part-split_from :
    (sep : Text) (skip : ℕ) (s : Text)
    → sep ≢ []
    → contains (last_part (split_from sep skip s)) sep ≡ false
unfolding split_from last_part contains drop
last_part-split_from sep zero [] h = has_prefix-nil sep h
last_part-split_from sep (suc skip) [] h = has_prefix-nil sep h
last_part-split_from sep (suc skip) (c ∷ s) h = last_part-split_from sep skip s h
last_part-split_from sep zero (c ∷ s) h = elim (Bool-cases (has_prefix (c ∷ s) sep)) [
  | inl found ↦
      ap (λ parts. contains (last_part parts) sep) (split_from-found sep c s found)
      ∙ ap (λ part. contains part sep)
          (last_part-cons [] _ (split_from-IsParts sep (length sep - 1) s))
      ∙ last_part-split_from sep (length sep - 1) s h
  | inr other ↦
      ap (λ parts. contains (last_part parts) sep) (split_from-other sep c s other)
      ∙ last_part-cons_head sep c s (split_from sep 0 s) (join-split_from sep 0 s h) other
          (last_part-split_from sep 0 s h) (split_from-IsParts sep 0 s)
]

-- The product and the size are read of the two texts that the name is cut into.
abbrev pub Reads : ⦃case : CaseTable⦄ → Text → Text → Text → Type 0
Reads name product size =
    (head : Text) × (tail : Text) × Cuts name head tail
    × (product ≡ trim_space head)
    × (size ≡ normalize_size tail)

product_and_size-Reads :
    ⦃case : CaseTable⦄ (name : Text) (parts : List Text) (product size : Text)
    → join parts separator ≡ name
    → AreClear parts
    → contains (last_part parts) separator ≡ false
    → product_and_size name parts ≡ (product, size, true)
    → size ≢ []
    → Reads name product size
unfolding product_and_size
product_and_size-Reads name [] product size e clear last h k = absurd (k (sym (ap (λ t. t.1) h)))
product_and_size-Reads name (p ∷ []) product size e clear last h k =
    absurd (k (sym (ap (λ t. t.1) h)))
product_and_size-Reads name (p ∷ q ∷ parts) product size e clear last h k = (
  join (all_but_last (p ∷ q ∷ parts)) separator,
  last_part (p ∷ q ∷ parts),
  subst (λ n. Cuts n (join (all_but_last (p ∷ q ∷ parts)) separator) (last_part (p ∷ q ∷ parts))) e
      (join-Cuts p q parts clear last),
  sym (ap (λ t. t.0) h),
  sym (ap (λ t. t.1) h),
)

-- Where the name of a merchandise ticket gives a size, the name is cut at the last of the " - " that are
-- found in it from the left, of which no two overlap: the product is what stands before, trimmed, and
-- the size what stands behind, normalised.
pub split_merch-Reads :
    ⦃case : CaseTable⦄ (name : Text) (patterns : List Text) (product size : Text)
    → split_merch name patterns ≡ (product, size, true)
    → size ≢ []
    → Reads name product size
unfolding split_merch split
split_merch-Reads name patterns product size h k =
    elim (Bool-cases (matches_pattern (to_lower name) patterns)) [
      | inl merch ↦
          product_and_size-Reads name (split name separator) product size
            (join-split name separator (λ e. cc)) (split_from-AreClear 0 name)
            (last_part-split_from separator 0 name (λ e. cc)) (rw merch at h) k
      | inr other ↦ absurd (k (sym (ap (λ t. t.1) (rw other at h))))
    ]
