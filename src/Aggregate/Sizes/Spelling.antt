-- ===== src/Aggregate/Sizes/Spelling.antt =====
-- internal/aggregate/sizes.go: the spellings of a size under `NormalizeSize`.
use ticketbutler_proxy.Common.{◌<◌, ◌≡◌, refl, ◌⊎◌, inl, inr, ◌∙◌, ap, List, [], ◌∷◌, arith, All}
use ticketbutler_proxy.Text.{
  Text, codes, ascii_lower, trim_space, CaseTable, to_lower, text_functions,
}
use ticketbutler_proxy.Text.Case.{key_idem}
use ticketbutler_proxy.Aggregate.Sizes.{canonical_size, normalize_size}

abbrev IsLowAscii : Text → Type 0
IsLowAscii s = All (λ c. (c < 128) × (ascii_lower c ≡ c)) s

to_lower_of_IsLowAscii : ⦃case : CaseTable⦄ (s : Text) → IsLowAscii s → to_lower s ≡ s
unfolding to_lower
to_lower_of_IsLowAscii [] h = refl
to_lower_of_IsLowAscii ⦃case⦄ (c ∷ s) ((ascii, low), h) =
    rw (case.lower_rune_ascii c ascii, low, to_lower_of_IsLowAscii s h)

-- The names of the sizes that a tally knows.
abbrev pub size_names : List Text
size_names =
    codes "small" ∷ codes "medium" ∷ codes "large" ∷ codes "xl" ∷ codes "2xl" ∷ codes "3xl" ∷ []

-- `IsName k`: `k` is one of those names.
abbrev pub IsName : Text → Type 0
IsName k =
    (k ≡ codes "small")
    ⊎ (k ≡ codes "medium")
    ⊎ (k ≡ codes "large")
    ⊎ (k ≡ codes "xl")
    ⊎ (k ≡ codes "2xl")
    ⊎ (k ≡ codes "3xl")

canonical_size_cases : (k : Text) → IsName (canonical_size k) ⊎ (canonical_size k ≡ k)
unfolding canonical_size
canonical_size_cases k = ground arith

module _ ⦃case : CaseTable⦄ where
  canonical_fixed :
      (k : Text) → IsLowAscii k → trim_space k ≡ k → canonical_size k ≡ k → normalize_size k ≡ k
  unfolding normalize_size
  canonical_fixed k low trimmed fixed =
      ap canonical_size (ap to_lower trimmed ∙ to_lower_of_IsLowAscii k low) ∙ fixed

  pub normalize_size_of_IsName : (k : Text) → IsName k → normalize_size k ≡ k
  unfolding text_functions canonical_size
  normalize_size_of_IsName k (inl e) = rw e (canonical_fixed _ (ground arith) refl refl)
  normalize_size_of_IsName k (inr (inl e)) = rw e (canonical_fixed _ (ground arith) refl refl)
  normalize_size_of_IsName k (inr (inr (inl e))) = rw e (canonical_fixed _ (ground arith) refl refl)
  normalize_size_of_IsName k (inr (inr (inr (inl e)))) =
      rw e (canonical_fixed _ (ground arith) refl refl)
  normalize_size_of_IsName k (inr (inr (inr (inr (inl e))))) =
      rw e (canonical_fixed _ (ground arith) refl refl)
  normalize_size_of_IsName k (inr (inr (inr (inr (inr e))))) =
      rw e (canonical_fixed _ (ground arith) refl refl)

  -- Normalising a size a second time changes nothing.
  pub normalize_size_idem : (s : Text) → normalize_size (normalize_size s) ≡ normalize_size s
  unfolding normalize_size
  normalize_size_idem s = elim (canonical_size_cases (to_lower (trim_space s))) [
    | inl named ↦ normalize_size_of_IsName _ named
    | inr fixed ↦ ap normalize_size fixed ∙ ap canonical_size (key_idem s)
  ]
