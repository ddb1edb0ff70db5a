-- ===== src/Aggregate/Sponsors/Unique.antt =====
-- internal/aggregate/sponsors.go: ascending lists of sponsors, by who is found in them.
use ticketbutler_proxy.Common.{
  ◌≡◌, refl, sym, ap, ◌∙◌, ◌⊎◌, inl, inr, Bool-cases, none, some, List, [], ◌∷◌, All, arith,
}
use ticketbutler_proxy.Text.{Text, text_eq, CaseTable}
use ticketbutler_proxy.Text.Order.{eq_of_text_eq, text_eq_refl, text_lt_trans, text_lt_irrefl}
use ticketbutler_proxy.Aggregate.Sponsors.{Sponsor, less}
use ticketbutler_proxy.Aggregate.Sponsors.Find.{key_of, find, IsDistinct}
use ticketbutler_proxy.Aggregate.Sponsors.Sorted.{sort_key, Below, IsAscending, find-nil}

module _ ⦃case : CaseTable⦄ where
  All-find :
      (r : Sponsor) (key : Text) (ss : List Sponsor) {s : Sponsor}
      → All (Below r) ss
      → find key ss ≡ some s
      → Below r s
  unfolding find
  All-find r key [] h found = cc
  All-find r key (t ∷ ts) (h, hs) found = elim (Bool-cases (text_eq (key_of t) key)) [
    | inl here ↦ ground arith
    | inr further ↦ All-find r key ts hs (ground arith)
  ]

  find-head : (s : Sponsor) (ss : List Sponsor) → find (key_of s) (s ∷ ss) ≡ some s
  unfolding find
  find-head s ss = rw text_eq_refl

  -- In an ascending list, what is found is the head or behind it.
  head_or_Below :
      (key : Text) (t : Sponsor) (ts : List Sponsor) {s : Sponsor}
      → IsAscending (t ∷ ts)
      → find key (t ∷ ts) ≡ some s
      → (t ≡ s) ⊎ Below t s
  unfolding find
  head_or_Below key t ts (h, hs) found = elim (Bool-cases (text_eq (key_of t) key)) [
    | inl here ↦ inl (ground arith)
    | inr further ↦ inr (All-find t key ts h (ground arith))
  ]

  not-Below_both : (s t : Sponsor) → Below s t → Below t s → ⊥
  unfolding less
  not-Below_both s t h k =
      cc (text_lt_trans (sort_key s) (sort_key t) (sort_key s) h k, text_lt_irrefl (sort_key s))

  heads_agree :
      (s t : Sponsor) (ss ts : List Sponsor)
      → IsAscending (s ∷ ss)
      → IsAscending (t ∷ ts)
      → ((key : Text) → find key (s ∷ ss) ≡ find key (t ∷ ts))
      → s ≡ t
  heads_agree s t ss ts h k same =
      elim (head_or_Below (key_of s) t ts k (sym (same (key_of s)) ∙ find-head s ss)) [
        | inl e ↦ sym e
        | inr below ↦ elim (head_or_Below (key_of t) s ss h (same (key_of t) ∙ find-head t ts)) [
          | inl e ↦ e
          | inr above ↦ absurd (not-Below_both s t above below)
        ]
      ]

  tails_agree :
      (s : Sponsor) (ss ts : List Sponsor)
      → find (key_of s) ss ≡ none
      → find (key_of s) ts ≡ none
      → (key : Text) → find key (s ∷ ss) ≡ find key (s ∷ ts)
      → find key ss ≡ find key ts
  unfolding find
  tails_agree s ss ts h k key same = elim (Bool-cases (text_eq (key_of s) key)) [
    | inl here ↦ rw (← eq_of_text_eq (key_of s) key here) (h ∙ sym k)
    | inr further ↦ ground arith
  ]

  -- Two ascending lists of different companies that have the same sponsor for each company are one.
  pub ascending_unique :
      (ss ts : List Sponsor)
      → IsAscending ss
      → IsAscending ts
      → IsDistinct ss
      → IsDistinct ts
      → ((key : Text) → find key ss ≡ find key ts)
      → ss ≡ ts
  ascending_unique [] [] h k d e same = refl
  ascending_unique [] (t ∷ ts) h k d e same =
      cc (same (key_of t), find-head t ts, find-nil (key_of t))
  ascending_unique (s ∷ ss) [] h k d e same =
      cc (same (key_of s), find-head s ss, find-nil (key_of s))
  ascending_unique (s ∷ ss) (t ∷ ts) h k d e same =
      let head_eq = heads_agree s t ss ts h k same in
      let tail_eq : ss ≡ ts = ascending_unique ss ts h.1 k.1 d.1 e.1 λ key.
        tails_agree s ss ts d.0 (rw head_eq e.0) key
          (same key ∙ ap (λ u. find key (u ∷ ts)) (sym head_eq)) in
      cc
