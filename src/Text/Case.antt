-- ===== src/Text/Case.antt =====
-- Lowering a text, and trimming it.
use ticketbutler_proxy.Common.{ℕ, ◌≡◌, refl, ap, ◌∙◌, [], ◌∷◌, arith}
use ticketbutler_proxy.Text.Defs.{
  Text, trim_left, cons_trimmed, trim_end, trim_space, CaseTable, to_lower,
}
use ticketbutler_proxy.Text.Trim.{trim_space_idem}

module _ ⦃case : CaseTable⦄ where
  pub to_lower_idem : (s : Text) → to_lower (to_lower s) ≡ to_lower s
  unfolding to_lower
  to_lower_idem [] = refl
  to_lower_idem (c ∷ s) = rw (case.lower_rune_idem c, to_lower_idem s)

  trim_left-to_lower : (s : Text) → trim_left (to_lower s) ≡ to_lower (trim_left s)
  unfolding trim_left to_lower
  trim_left-to_lower [] = refl
  trim_left-to_lower (c ∷ s) = ground (arith, case.is_space-lower_rune c, trim_left-to_lower s)

  cons_trimmed-to_lower :
      (c : ℕ) (s : Text)
      → cons_trimmed (case.lower_rune c) (to_lower s) ≡ to_lower (cons_trimmed c s)
  unfolding cons_trimmed to_lower
  cons_trimmed-to_lower c [] = ground (arith, case.is_space-lower_rune c)
  cons_trimmed-to_lower c (d ∷ s) = refl

  trim_end-to_lower : (s : Text) → trim_end (to_lower s) ≡ to_lower (trim_end s)
  unfolding trim_end to_lower
  trim_end-to_lower [] = refl
  trim_end-to_lower (c ∷ s) =
      ap (cons_trimmed (case.lower_rune c)) (trim_end-to_lower s)
      ∙ cons_trimmed-to_lower c (trim_end s)

  pub trim_space-to_lower : (s : Text) → trim_space (to_lower s) ≡ to_lower (trim_space s)
  unfolding trim_space
  trim_space-to_lower s = ap trim_end (trim_left-to_lower s) ∙ trim_end-to_lower (trim_left s)

  -- A key that is trimmed and then lowered stays as it is when that is done again.
  pub key_idem :
      (s : Text) → to_lower (trim_space (to_lower (trim_space s))) ≡ to_lower (trim_space s)
  key_idem s =
      ap to_lower (trim_space-to_lower (trim_space s))
      ∙ (to_lower_idem _ ∙ ap to_lower (trim_space_idem s))
