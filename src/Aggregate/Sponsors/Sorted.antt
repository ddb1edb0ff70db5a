-- ===== src/Aggregate/Sponsors/Sorted.antt =====
-- internal/aggregate/sponsors.go: sorting sponsors of different companies.
use ticketbutler_proxy.Common.{
  ◌≡◌, ◌≢◌, refl, sym, ap, ◌∙◌, ◌⊎◌, inl, inr, true, false, Bool-cases, none, some, List, [], ◌∷◌,
  All, arith, if◌then◌else◌,
}
use ticketbutler_proxy.Text.{Text, text_eq, trim_space, CaseTable, to_lower}
use ticketbutler_proxy.Text.Order.{text_eq_iff, text_lt_trans, text_lt_total}
use ticketbutler_proxy.Text.Case.{trim_space-to_lower}
use ticketbutler_proxy.Aggregate.Sponsors.{Sponsor, company_key, less, insert_sorted, sort}
use ticketbutler_proxy.Aggregate.Sponsors.Find.{key_of, find, IsDistinct}

module _ ⦃case : CaseTable⦄ where
  -- The text by which `less` compares.
  abbrev pub sort_key : Sponsor → Text
  sort_key s = to_lower s.company_name

  abbrev pub Below : Sponsor → Sponsor → Type 0
  Below s t = less s t ≡ true

  -- Each sponsor is less than all that follow.
  abbrev pub IsAscending : List Sponsor → Type 0
  IsAscending [] = Unit
  IsAscending (s ∷ ss) = All (Below s) ss × IsAscending ss

  key_of-sort_key : (s t : Sponsor) → sort_key s ≡ sort_key t → key_of s ≡ key_of t
  unfolding company_key
  key_of-sort_key s t e =
      sym (trim_space-to_lower s.company_name)
      ∙ (ap trim_space e ∙ trim_space-to_lower t.company_name)

  less_trans : (s t u : Sponsor) → Below s t → Below t u → Below s u
  unfolding less
  less_trans s t u = text_lt_trans (sort_key s) (sort_key t) (sort_key u)

  less_total : (s t : Sponsor) → less s t ≡ false → (key_of s ≡ key_of t) ⊎ Below t s
  unfolding less
  less_total s t h = elim (text_lt_total (sort_key s) (sort_key t)) [
    | inl below ↦ cc
    | inr (inl same) ↦ inl (key_of-sort_key s t same)
    | inr (inr above) ↦ inr above
  ]

  find-insert_sorted :
      (key : Text) (s : Sponsor) (ss : List Sponsor)
      → find (key_of s) ss ≡ none
      → find key (insert_sorted s ss) ≡ (if text_eq (key_of s) key then some s else find key ss)
  unfolding find insert_sorted
  find-insert_sorted key s [] new = refl
  find-insert_sorted key s (t ∷ ts) new = ground (
    arith,
    text_eq_iff (key_of s) key,
    text_eq_iff (key_of t) key,
    text_eq_iff (key_of t) (key_of s),
    find-insert_sorted key s ts,
  )

  pub find-nil : (key : Text) → find key [] ≡ none
  unfolding find
  find-nil key = refl

  find-cons-none :
      (s t : Sponsor) (ts : List Sponsor)
      → find (key_of s) (t ∷ ts) ≡ none
      → (key_of t ≢ key_of s) × (find (key_of s) ts ≡ none)
  unfolding find
  find-cons-none s t ts new = ground (arith, text_eq_iff (key_of t) (key_of s))

  find-cons :
      (key : Text) (s : Sponsor) (ss : List Sponsor)
      → find key (s ∷ ss) ≡ (if text_eq (key_of s) key then some s else find key ss)
  unfolding find
  find-cons key s ss = refl

  pub find-sort :
      (key : Text) (ss : List Sponsor) → IsDistinct ss → find key (sort ss) ≡ find key ss
  unfolding sort
  find-sort key [] h = refl
  find-sort key (s ∷ ss) (new, h) =
      find-insert_sorted key s (sort ss) (find-sort (key_of s) ss h ∙ new)
      ∙ rw (find-sort key ss h) (sym (find-cons key s ss))

  All-insert_sorted :
      (r s : Sponsor) (ss : List Sponsor)
      → Below r s
      → All (Below r) ss
      → All (Below r) (insert_sorted s ss)
  unfolding insert_sorted
  All-insert_sorted r s [] h k = (h, tt)
  All-insert_sorted r s (t ∷ ts) h (k, ks) = elim (Bool-cases (less s t)) [
    | inl first ↦ rw first (h, (k, ks))
    | inr later ↦ rw later (k, All-insert_sorted r s ts h ks)
  ]

  All-trans : (r s : Sponsor) (ss : List Sponsor) → Below r s → All (Below s) ss → All (Below r) ss
  All-trans r s [] h k = tt
  All-trans r s (t ∷ ts) h (k, ks) = (less_trans r s t h k, All-trans r s ts h ks)

  insert_sorted-IsAscending :
      (s : Sponsor) (ss : List Sponsor)
      → find (key_of s) ss ≡ none
      → IsAscending ss
      → IsAscending (insert_sorted s ss)
  unfolding insert_sorted
  insert_sorted-IsAscending s [] new h = (tt, tt)
  insert_sorted-IsAscending s (t ∷ ts) new (h, hs) = elim (Bool-cases (less s t)) [
    | inl first ↦ rw first ((first, All-trans s t ts first h), (h, hs))
    | inr later ↦ rw later (
      All-insert_sorted t s ts (below later) h,
      insert_sorted-IsAscending s ts (find-cons-none s t ts new).1 hs,
    )
  ]
    where
      below : less s t ≡ false → Below t s
      below later = elim (less_total s t later) [
        | inl same ↦ absurd ((find-cons-none s t ts new).0 (sym same))
        | inr above ↦ above
      ]

  pub sort-IsAscending : (ss : List Sponsor) → IsDistinct ss → IsAscending (sort ss)
  unfolding sort
  sort-IsAscending [] h = tt
  sort-IsAscending (s ∷ ss) (new, h) =
      insert_sorted-IsAscending s (sort ss) (find-sort (key_of s) ss h ∙ new)
        (sort-IsAscending ss h)

  insert_sorted-IsDistinct :
      (s : Sponsor) (ss : List Sponsor)
      → find (key_of s) ss ≡ none
      → IsDistinct ss
      → IsDistinct (insert_sorted s ss)
  unfolding insert_sorted
  insert_sorted-IsDistinct s [] new h = (new, tt)
  insert_sorted-IsDistinct s (t ∷ ts) new (apart, h) = elim (Bool-cases (less s t)) [
    | inl first ↦ rw first (new, (apart, h))
    | inr later ↦ rw later (
      ground (
        arith,
        find-insert_sorted (key_of t) s ts,
        find-cons-none s t ts new,
        text_eq_iff (key_of s) (key_of t),
      ),
      insert_sorted-IsDistinct s ts (find-cons-none s t ts new).1 h,
    )
  ]

  pub sort-IsDistinct : (ss : List Sponsor) → IsDistinct ss → IsDistinct (sort ss)
  unfolding sort
  sort-IsDistinct [] h = tt
  sort-IsDistinct (s ∷ ss) (new, h) =
      insert_sorted-IsDistinct s (sort ss) (find-sort (key_of s) ss h ∙ new) (sort-IsDistinct ss h)
