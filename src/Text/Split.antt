-- ===== src/Text/Split.antt =====
-- What `split` and `join` do to each other.
use ticketbutler_proxy.Common.{
  ℕ, zero, suc, ◌-◌, ◌≡◌, ◌≢◌, refl, ap, ◌∙◌, true, false, List, [], ◌∷◌, ◌++◌, length, arith, inl,
  inr, Bool-cases,
}
use ticketbutler_proxy.Text.Defs.{Text, has_prefix, cons_head, split_from, split, join}

unfoldable pub drop : ℕ → Text → Text
drop zero s = s
drop (suc n) [] = []
drop (suc n) (c ∷ s) = drop n s

has_prefix-drop : (s p : Text) → has_prefix s p ≡ true → p ++ drop (length p) s ≡ s
unfolding has_prefix drop
has_prefix-drop s [] h = refl
has_prefix-drop [] (p ∷ ps) h = cc
has_prefix-drop (c ∷ s) (p ∷ ps) h =
    let same : c ≡ p = ground arith in
    let rest : has_prefix s ps ≡ true = ground arith in rw (same, has_prefix-drop s ps rest)

-- A list of parts that is not empty.
unfoldable pub IsParts : List Text → Type 0
IsParts [] = ⊥
IsParts (part ∷ parts) = Unit

pub cons_head-IsParts : (c : ℕ) (parts : List Text) → IsParts (cons_head c parts)
unfolding IsParts
cons_head-IsParts c [] = tt
cons_head-IsParts c (p ∷ parts) = tt

pub split_from-found :
    (sep : Text) (c : ℕ) (s : Text)
    → has_prefix (c ∷ s) sep ≡ true
    → split_from sep 0 (c ∷ s) ≡ [] ∷ split_from sep (length sep - 1) s
unfolding split_from
split_from-found sep c s h = ground (arith, h)

pub split_from-other :
    (sep : Text) (c : ℕ) (s : Text)
    → has_prefix (c ∷ s) sep ≡ false
    → split_from sep 0 (c ∷ s) ≡ cons_head c (split_from sep 0 s)
unfolding split_from
split_from-other sep c s h = ground (arith, h)

pub split_from-IsParts : (sep : Text) (skip : ℕ) (s : Text) → IsParts (split_from sep skip s)
unfolding split_from IsParts
split_from-IsParts sep skip [] = tt
split_from-IsParts sep (suc skip) (c ∷ s) = split_from-IsParts sep skip s
split_from-IsParts sep zero (c ∷ s) = elim (Bool-cases (has_prefix (c ∷ s) sep)) [
  | inl found ↦ rw (split_from-found sep c s found) tt
  | inr other ↦ rw (split_from-other sep c s other) (cons_head-IsParts c (split_from sep 0 s))
]

pub join-cons_head :
    (c : ℕ) (parts : List Text) (sep : Text) → join (cons_head c parts) sep ≡ c ∷ join parts sep
unfolding join
join-cons_head c [] sep = refl
join-cons_head c (p ∷ []) sep = refl
join-cons_head c (p ∷ q ∷ parts) sep = refl

pub join-cons :
    (p : Text) (parts : List Text) (sep : Text)
    → IsParts parts
    → join (p ∷ parts) sep ≡ p ++ (sep ++ join parts sep)
unfolding join IsParts
join-cons p [] sep h = absurd h
join-cons p (q ∷ parts) sep h = refl

found_separator :
    (sep : Text) (c : ℕ) (s : Text)
    → sep ≢ []
    → has_prefix (c ∷ s) sep ≡ true
    → sep ++ drop (length sep - 1) s ≡ c ∷ s
unfolding drop
found_separator [] c s h k = absurd (h refl)
found_separator (x ∷ sep) c s h k =
    let e : suc (length sep) - 1 ≡ length sep = omega arith in
    rw e (has_prefix-drop (c ∷ s) (x ∷ sep) k)

pub join-split_from :
    (sep : Text) (skip : ℕ) (s : Text) → sep ≢ [] → join (split_from sep skip s) sep ≡ drop skip s
unfolding drop split_from join
join-split_from sep zero [] h = refl
join-split_from sep (suc skip) [] h = refl
join-split_from sep (suc skip) (c ∷ s) h = join-split_from sep skip s h
join-split_from sep zero (c ∷ s) h = elim (Bool-cases (has_prefix (c ∷ s) sep)) [
  | inl found ↦
      ap (λ parts. join parts sep) (split_from-found sep c s found)
      ∙ join-cons [] _ sep (split_from-IsParts sep (length sep - 1) s)
      ∙ ap (λ t. sep ++ t) (join-split_from sep (length sep - 1) s h)
      ∙ found_separator sep c s h found
  | inr other ↦
      ap (λ parts. join parts sep) (split_from-other sep c s other)
      ∙ join-cons_head c _ sep
      ∙ ap (λ t. c ∷ t) (join-split_from sep 0 s h)
]

-- Joining what splitting by a separator gives restores the text.
pub join-split : (s sep : Text) → sep ≢ [] → join (split s sep) sep ≡ s
unfolding split drop
join-split s sep h = join-split_from sep 0 s h
