-- ===== src/Text/Trim.antt =====
-- `strings.TrimSpace` and the white space at the ends of a text.
use ticketbutler_proxy.Common.{ℕ, ◌≡◌, refl, false, [], ◌∷◌, inl, inr, Bool-cases}
use ticketbutler_proxy.Text.Defs.{Text, is_space, trim_left, cons_trimmed, trim_end, trim_space}

-- The first code point is no white space.
abbrev pub StartsBare : Text → Type 0
StartsBare [] = Unit
StartsBare (c ∷ s) = is_space c ≡ false

-- The last code point is no white space.
abbrev pub EndsBare : Text → Type 0
EndsBare [] = Unit
EndsBare (c ∷ []) = is_space c ≡ false
EndsBare (c ∷ d ∷ s) = EndsBare (d ∷ s)

trim_left-StartsBare : (s : Text) → StartsBare (trim_left s)
unfolding trim_left
trim_left-StartsBare [] = tt
trim_left-StartsBare (c ∷ s) = elim (Bool-cases (is_space c)) [
  | inl space ↦ rw space (trim_left-StartsBare s)
  | inr bare ↦ rw bare bare
]

cons_trimmed-EndsBare : (c : ℕ) (s : Text) → EndsBare s → EndsBare (cons_trimmed c s)
unfolding cons_trimmed
cons_trimmed-EndsBare c [] h = elim (Bool-cases (is_space c)) [
  | inl space ↦ rw space tt
  | inr bare ↦ rw bare bare
]
cons_trimmed-EndsBare c (d ∷ s) h = h

trim_end-EndsBare : (s : Text) → EndsBare (trim_end s)
unfolding trim_end
trim_end-EndsBare [] = tt
trim_end-EndsBare (c ∷ s) = cons_trimmed-EndsBare c (trim_end s) (trim_end-EndsBare s)

cons_trimmed-StartsBare : (c : ℕ) (s : Text) → is_space c ≡ false → StartsBare (cons_trimmed c s)
unfolding cons_trimmed
cons_trimmed-StartsBare c [] h = rw h h
cons_trimmed-StartsBare c (d ∷ s) h = h

trim_end-StartsBare : (s : Text) → StartsBare s → StartsBare (trim_end s)
unfolding trim_end
trim_end-StartsBare [] h = tt
trim_end-StartsBare (c ∷ s) h = cons_trimmed-StartsBare c (trim_end s) h

trim_left_of_StartsBare : (s : Text) → StartsBare s → trim_left s ≡ s
unfolding trim_left
trim_left_of_StartsBare [] h = refl
trim_left_of_StartsBare (c ∷ s) h = rw h

trim_end_of_EndsBare : (s : Text) → EndsBare s → trim_end s ≡ s
unfolding trim_end cons_trimmed
trim_end_of_EndsBare [] h = refl
trim_end_of_EndsBare (c ∷ []) h = rw h
trim_end_of_EndsBare (c ∷ d ∷ s) h = rw (trim_end_of_EndsBare (d ∷ s) h)

-- No white space is left at either end.
pub trim_space_bare : (s : Text) → StartsBare (trim_space s) × EndsBare (trim_space s)
unfolding trim_space
trim_space_bare s =
    (trim_end-StartsBare _ (trim_left-StartsBare s), trim_end-EndsBare (trim_left s))

pub trim_space_of_bare : (s : Text) → StartsBare s → EndsBare s → trim_space s ≡ s
unfolding trim_space
trim_space_of_bare s h k = rw (trim_left_of_StartsBare s h) (trim_end_of_EndsBare s k)

pub trim_space_idem : (s : Text) → trim_space (trim_space s) ≡ trim_space s
trim_space_idem s =
    let (starts, ends) = trim_space_bare s in trim_space_of_bare (trim_space s) starts ends
