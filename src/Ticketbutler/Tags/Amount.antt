-- ===== src/Ticketbutler/Tags/Amount.antt =====
-- internal/ticketbutler/types.go: an `Amount` read back from its JSON, and a float64 likewise.
use ticketbutler_proxy.Common.{
  ℕ, ◌≡◌, ◌≢◌, refl, sym, ◌∙◌, ap, false, some, [], ◌∷◌, ◌++◌, All, arith, ◌==◌, inl, inr,
  Option-cases,
}
use ticketbutler_proxy.Float.{Float, IsFloat}
use ticketbutler_proxy.Text.{Text, codes, text_eq, text_functions, trim_right, cons_cut}
use ticketbutler_proxy.Text.Order.{text_eq_iff}
use ticketbutler_proxy.Errors.{ok}
use ticketbutler_proxy.Json.Value.{Json, null, text, escape, token}
use ticketbutler_proxy.Json.Kind.{IsKind, get_number}
use ticketbutler_proxy.Json.Kind.Laws.{ok_inj}
use ticketbutler_proxy.Ticketbutler.Types.{trim_left_quotes, unmarshal_amount, marshal_amount}
use ticketbutler_proxy.Ticketbutler.Tags.{
  drop_last, string_of_token, put_amount, get_amount, amount_kind, put_float, get_float, float_kind,
}

-- Text without quotes and backslashes.
abbrev pub Plain : Text → Type 0
Plain = All (λ c. (c ≢ b'"') × (c ≢ 0x5c))

pub escape-Plain : (s : Text) → Plain s → escape s ≡ s
unfolding escape
escape-Plain [] h = refl
escape-Plain (c ∷ s) ((no_quote, no_slash), h) = ground (arith, escape-Plain s h)

drop_last-snoc : (s : Text) (c : ℕ) → drop_last (s ++ c ∷ []) ≡ s
unfolding drop_last
drop_last-snoc [] c = refl
drop_last-snoc (d ∷ []) c = refl
drop_last-snoc (d ∷ e ∷ s) c = ap (λ t. d ∷ t) (drop_last-snoc (e ∷ s) c)

trim_right-snoc : (s : Text) (c : ℕ) → trim_right (s ++ c ∷ []) c ≡ trim_right s c
unfolding text_functions
trim_right-snoc [] c = ground arith
trim_right-snoc (d ∷ s) c = rw (trim_right-snoc s c)

pub trim_right-Plain : (s : Text) → Plain s → trim_right s b'"' ≡ s
unfolding text_functions
trim_right-Plain [] h = refl
trim_right-Plain (c ∷ s) ((no_quote, _), h) = rw (trim_right-Plain s h) (cut_plain c s no_quote)
  where
    cut_plain : (c : ℕ) (s : Text) → c ≢ b'"' → cons_cut b'"' c s ≡ c ∷ s
    cut_plain c [] k = ground arith
    cut_plain c (d ∷ s) k = refl

-- The quotes around a plain text are all that is trimmed.
pub trim_quotes :
    (s : Text) → Plain s → s ≢ [] → trim_right (trim_left_quotes (b'"' ∷ (s ++ b'"' ∷ []))) b'"' ≡ s
unfolding trim_left_quotes
trim_quotes [] h k = absurd (k refl)
trim_quotes (c ∷ s) ((no_quote, no_slash), h) k =
    let other : (c == b'"') ≡ false = ground arith in
    rw other (trim_right-snoc (c ∷ s) b'"' ∙ trim_right-Plain (c ∷ s) ((no_quote, no_slash), h))

module _ {F : Type 0} ⦃float : Float F⦄ {cents : F → F} (laws : IsFloat float cents) where
  -- What `MarshalJSON` writes for an amount is read by `UnmarshalJSON` to the cent.
  pub unmarshal_amount-marshal_amount :
      (a : F) → unmarshal_amount (marshal_amount a) ≡ some (cents a)
  unfolding unmarshal_amount marshal_amount
  unmarshal_amount-marshal_amount a =
      let trimmed =
        trim_quotes (float.format_cents a) (laws.format_cents_plain a)
          (laws.format_cents-ne-nil a) in
      let full : text_eq (float.format_cents a) [] ≡ false =
        ground (arith, text_eq_iff (float.format_cents a) [], laws.format_cents-ne-nil a) in
      let not_null : text_eq (float.format_cents a) (codes "null") ≡ false =
        ground
          (arith, text_eq_iff (float.format_cents a) (codes "null"), laws.format_cents-ne-null a) in
      rw trimmed (rw (full, not_null) (laws.parse-format_cents a))

  unquoted : (a : F) → string_of_token (marshal_amount a) ≡ text (float.format_cents a)
  unfolding string_of_token marshal_amount
  unquoted a = ap text (drop_last-snoc (float.format_cents a) b'"')

  token_unquoted : (a : F) → token (text (float.format_cents a)) ≡ marshal_amount a
  unfolding token marshal_amount
  token_unquoted a = rw (escape-Plain (float.format_cents a) (laws.format_cents_plain a))

  get_amount-put_amount : (a : F) (j : Json) → put_amount a ≡ ok j → get_amount j ≡ ok (cents a)
  unfolding put_amount get_amount
  get_amount-put_amount a j h =
      let same : text (float.format_cents a) ≡ j = sym (unquoted a) ∙ ok_inj h in
      rw (← same) (rw (token_unquoted a) (rw (unmarshal_amount-marshal_amount a)))

  pub amount_kind-IsKind : IsKind amount_kind cents
  amount_kind-IsKind = record { get-put = get_amount-put_amount }

  pub put_amount-ne-null : (a : F) → put_amount a ≢ ok null
  unfolding put_amount
  put_amount-ne-null a h =
      let e : text (float.format_cents a) ≡ null = sym (unquoted a) ∙ ok_inj h in cc

  get_float-put_float : (x : F) (j : Json) → put_float x ≡ ok j → get_float j ≡ ok x
  unfolding put_float get_float get_number
  get_float-put_float x j h = elim (Option-cases (float.print_json x)) [
    | inl missing ↦ cc (rw missing at h)
    | inr (s, printed) ↦ rw (← ok_inj (rw printed at h)) (rw (laws.parse-print_json x s printed))
  ]

  pub float_kind-IsKind : IsKind {A = F} float_kind (λ x. x)
  float_kind-IsKind = record { get-put = get_float-put_float }
