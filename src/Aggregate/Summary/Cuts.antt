-- ===== src/Aggregate/Summary/Cuts.antt =====
-- internal/aggregate/summary.go: where `splitMerch` cuts the name of a merchandise ticket.
use ticketbutler_proxy.Common.{
  ℕ, zero, suc, ◌≡◌, refl, sym, false, List, [], ◌∷◌, ◌++◌, arith, inl, inr, Bool-cases,
}
use mathlib.Core.List.{append_assoc}
use mathlib.Core.Path.{subst}
use ticketbutler_proxy.Text.{Text, codes, has_prefix, contains, cons_head, split_from, join}
use ticketbutler_proxy.Text.Split.{
  IsParts, split_from-IsParts, split_from-found, split_from-other, join-split_from, drop,
}
use ticketbutler_proxy.Aggregate.Summary.{all_but_last, last_part, separator}

-- No separator begins in the text where it is followed by one.
abbrev pub StaysClear : Text → Type 0
StaysClear part = contains (part ++ codes " -") separator ≡ false

-- A name read from the left: each " - " that is found in what is left is taken out, and the last of them cuts
-- the name into what stands before and behind it. Where two of them overlap, the first is taken.
pub data Cuts : Text → Text → Text → Type 0 where
  last_cut :
      (part tail : Text)
      → StaysClear part
      → contains tail separator ≡ false
      → Cuts (part ++ (separator ++ tail)) part tail
  later_cut :
      {name head tail : Text} (part : Text)
      → StaysClear part
      → Cuts name head tail
      → Cuts (part ++ (separator ++ name)) (part ++ (separator ++ head)) tail

-- All parts but the last.
unfoldable pub AreClear : List Text → Type 0
AreClear [] = Unit
AreClear (part ∷ []) = Unit
AreClear (part ∷ next ∷ parts) = StaysClear part × AreClear (next ∷ parts)

has_prefix-append : (s t p : Text) → has_prefix (s ++ t) p ≡ false → has_prefix s p ≡ false
unfolding has_prefix
has_prefix-append s t [] h = h
has_prefix-append [] t (c ∷ p) h = refl
has_prefix-append (d ∷ s) t (c ∷ p) h = ground (arith, h, has_prefix-append s t p)

AreClear-cons : (parts : List Text) → IsParts parts → AreClear parts → AreClear ([] ∷ parts)
unfolding AreClear IsParts contains has_prefix
AreClear-cons [] i h = absurd i
AreClear-cons (p ∷ parts) i h = (refl, h)

-- A code point at the head of a text that stays clear of one in it.
StaysClear-cons :
    (c : ℕ) (part after : Text)
    → has_prefix (c ∷ part ++ (separator ++ after)) separator ≡ false
    → StaysClear part
    → StaysClear (c ∷ part)
unfolding contains
StaysClear-cons c part after h clear =
    let here = has_prefix-append (c ∷ part ++ codes " -") (codes " " ++ after) separator (
      subst (λ t. has_prefix (c ∷ t) separator ≡ false)
        (sym (append_assoc part (codes " -") (codes " " ++ after))) h) in
    rw (here, clear) refl

AreClear-cons_head :
    (c : ℕ) (s : Text) (parts : List Text)
    → join parts separator ≡ s
    → has_prefix (c ∷ s) separator ≡ false
    → AreClear parts
    → AreClear (cons_head c parts)
unfolding AreClear join contains
AreClear-cons_head c s [] e h k = tt
AreClear-cons_head c s (p ∷ []) e h k = tt
AreClear-cons_head c s (p ∷ q ∷ parts) e h (clear, k) =
    (StaysClear-cons c p (join (q ∷ parts) separator) (rw e h) clear, k)

pub split_from-AreClear : (skip : ℕ) (s : Text) → AreClear (split_from separator skip s)
unfolding split_from AreClear drop
split_from-AreClear zero [] = tt
split_from-AreClear (suc skip) [] = tt
split_from-AreClear (suc skip) (c ∷ s) = split_from-AreClear skip s
split_from-AreClear zero (c ∷ s) = elim (Bool-cases (has_prefix (c ∷ s) separator)) [
  | inl found ↦
      rw (split_from-found separator c s found)
        (AreClear-cons _ (split_from-IsParts separator 2 s) (split_from-AreClear 2 s))
  | inr other ↦ rw (split_from-other separator c s other) (
      AreClear-cons_head c s _ (join-split_from separator 0 s (λ e. cc)) other
        (split_from-AreClear 0 s))
]

pub join-Cuts :
    (p q : Text) (parts : List Text)
    → AreClear (p ∷ q ∷ parts)
    → contains (last_part (p ∷ q ∷ parts)) separator ≡ false
    → Cuts
        (join (p ∷ q ∷ parts) separator)
        (join (all_but_last (p ∷ q ∷ parts)) separator)
        (last_part (p ∷ q ∷ parts))
unfolding join all_but_last last_part AreClear
join-Cuts p q [] (clear, k) h = last_cut p q clear h
join-Cuts p q (r ∷ parts) (clear, k) h = later_cut p clear (join-Cuts q r parts k h)
