-- ===== src/Legacy/Sizes.antt =====
-- testdata/parity/legacy.js: the sizes of the script, and the tally of aggregate.SizeCounts that
-- stands for its object of counts.
use ticketbutler_proxy.Common.{
  ℕ, ◌≡◌, ◌⊎◌, refl, sym, ap, ◌∙◌, false, none, some, [], ◌∷◌, arith, inl, inr, Bool-cases,
}
use mathlib.Core.Path.{subst}
use ticketbutler_proxy.Dict.{Dict, lookup, insert}
use ticketbutler_proxy.Text.{
  Text, codes, text_eq, trim_left, trim_end, trim_space, CaseTable, to_lower,
}
use ticketbutler_proxy.Text.Order.{text_eq_iff}
use ticketbutler_proxy.Aggregate.Sizes.{SizeCounts, add_size, canonical_size, normalize_size}
use ticketbutler_proxy.Aggregate.Sizes.Spelling.{IsName}
use ticketbutler_proxy.Legacy.{rename_size, script_size, bump}
use ticketbutler_proxy.Legacy.Runtime.{Js, IsPlain, IsJs, get}
use ticketbutler_proxy.Legacy.Plain.{trim_space-All}

-- The object of counts that shows a tally.
abbrev pub counts_of : SizeCounts → Dict ℕ
counts_of s =
    (codes "small", s.small)
    ∷ (codes "medium", s.medium)
    ∷ (codes "large", s.large)
    ∷ (codes "xl", s.xl)
    ∷ (codes "2xl", s.xxl)
    ∷ (codes "3xl", s.xxxl)
    ∷ []

text_eq_comm : (s t : Text) → text_eq s t ≡ text_eq t s
text_eq_comm s t = ground (arith, text_eq_iff s t, text_eq_iff t s)

rename_size_lem : (s : Text) → rename_size s ≡ canonical_size s
unfolding rename_size canonical_size
rename_size_lem s = refl

pub normalize_size-nil : ⦃case : CaseTable⦄ → normalize_size [] ≡ []
unfolding normalize_size canonical_size trim_space trim_left trim_end to_lower text_eq
normalize_size-nil = refl

module _ ⦃case : CaseTable⦄ (js : Js) (runtime : IsJs js) where
  pub script_size_lem : (s : Text) → IsPlain s → script_size js s ≡ normalize_size s
  unfolding script_size normalize_size
  script_size_lem s h = elim (Bool-cases (text_eq s [])) [
    | inl empty ↦ rw (empty, (text_eq_iff s []).0 empty) (sym normalize_size-nil)
    | inr some_size ↦
        rw (some_size, runtime.trim-eq s h)
          (rename_size_lem _
            ∙ ap canonical_size (runtime.to_lower_case-eq (trim_space s) (trim_space-All _ s h)))
  ]

-- None of the six names.
abbrev IsOther : Text → Type 0
IsOther size =
    (text_eq (codes "small") size ≡ false)
    × (text_eq (codes "medium") size ≡ false)
    × (text_eq (codes "large") size ≡ false)
    × (text_eq (codes "xl") size ≡ false)
    × (text_eq (codes "2xl") size ≡ false)
    × (text_eq (codes "3xl") size ≡ false)

IsName-or_IsOther : (size : Text) → IsName size ⊎ IsOther size
IsName-or_IsOther size = ground (
  arith,
  text_eq_iff (codes "small") size,
  text_eq_iff (codes "medium") size,
  text_eq_iff (codes "large") size,
  text_eq_iff (codes "xl") size,
  text_eq_iff (codes "2xl") size,
  text_eq_iff (codes "3xl") size,
)

add_size-IsOther : (size : Text) (s : SizeCounts) → IsOther size → (add_size s size).0 ≡ s
unfolding add_size
add_size-IsOther size s h = ground (
  arith,
  text_eq_comm (codes "small") size,
  text_eq_comm (codes "medium") size,
  text_eq_comm (codes "large") size,
  text_eq_comm (codes "xl") size,
  text_eq_comm (codes "2xl") size,
  text_eq_comm (codes "3xl") size,
)

lookup-IsOther : (size : Text) (s : SizeCounts) → IsOther size → lookup size (counts_of s) ≡ none
unfolding lookup
lookup-IsOther size s (a, b, c, d, e, f) = rw (a, b, c, d, e, f)

bump-none :
    (js : Js) (size : Text) (counts : Dict ℕ)
    → lookup size counts ≡ none
    → js.inherited size ≡ false
    → bump js size counts ≡ some counts
unfolding bump get
bump-none js size counts h k = ground (arith, h, k)

module _ (js : Js) where
  abbrev Agree : SizeCounts → Text → Type 0
  Agree s size = bump js size (counts_of s) ≡ some (counts_of (add_size s size).0)

  bump-IsName : (size : Text) (s : SizeCounts) → IsName size → Agree s size
  unfolding bump get lookup insert add_size text_eq
  bump-IsName size s (inl e) = subst (Agree s) (sym e) refl
  bump-IsName size s (inr (inl e)) = subst (Agree s) (sym e) refl
  bump-IsName size s (inr (inr (inl e))) = subst (Agree s) (sym e) refl
  bump-IsName size s (inr (inr (inr (inl e)))) = subst (Agree s) (sym e) refl
  bump-IsName size s (inr (inr (inr (inr (inl e))))) = subst (Agree s) (sym e) refl
  bump-IsName size s (inr (inr (inr (inr (inr e))))) = subst (Agree s) (sym e) refl

  -- One more size in the object is one more size in the tally.
  pub bump-add_size :
      (size : Text) (s : SizeCounts)
      → js.inherited size ≡ false
      → bump js size (counts_of s) ≡ some (counts_of (add_size s size).0)
  bump-add_size size s h = elim (IsName-or_IsOther size) [
    | inl named ↦ bump-IsName size s named
    | inr other ↦
        bump-none js size (counts_of s) (lookup-IsOther size s other) h
        ∙ ap (λ t. some (counts_of t)) (sym (add_size-IsOther size s other))
  ]
