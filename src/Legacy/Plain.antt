-- ===== src/Legacy/Plain.antt =====
-- testdata/parity/legacy.js: the code points of what is cut out of a text.
use ticketbutler_proxy.Common.{
  ℕ, zero, suc, ◌-◌, List, [], ◌∷◌, length, All, All-append, inl, inr, Bool-cases,
}
use ticketbutler_proxy.Text.{
  Text, is_space, trim_left, cons_trimmed, trim_end, trim_space, has_prefix, cons_head, split_from,
  split, join,
}
use ticketbutler_proxy.Text.Split.{split_from-found, split_from-other}
use ticketbutler_proxy.Aggregate.Summary.{all_but_last, last_part}

module _ (P : ℕ → Type 0) where
  trim_left-All : (s : Text) → All P s → All P (trim_left s)
  unfolding trim_left
  trim_left-All [] h = tt
  trim_left-All (c ∷ s) (p, h) = elim (Bool-cases (is_space c)) [
    | inl space ↦ rw space (trim_left-All s h)
    | inr bare ↦ rw bare (p, h)
  ]

  cons_trimmed-All : (c : ℕ) (s : Text) → P c → All P s → All P (cons_trimmed c s)
  unfolding cons_trimmed
  cons_trimmed-All c [] p h = elim (Bool-cases (is_space c)) [
    | inl space ↦ rw space tt
    | inr bare ↦ rw bare (p, tt)
  ]
  cons_trimmed-All c (d ∷ s) p h = (p, h)

  trim_end-All : (s : Text) → All P s → All P (trim_end s)
  unfolding trim_end
  trim_end-All [] h = tt
  trim_end-All (c ∷ s) (p, h) = cons_trimmed-All c (trim_end s) p (trim_end-All s h)

  pub trim_space-All : (s : Text) → All P s → All P (trim_space s)
  unfolding trim_space
  trim_space-All s h = trim_end-All (trim_left s) (trim_left-All s h)

  cons_head-All :
      (c : ℕ) (parts : List Text) → P c → All (All P) parts → All (All P) (cons_head c parts)
  cons_head-All c [] p h = ((p, tt), tt)
  cons_head-All c (part ∷ parts) p (q, h) = ((p, q), h)

  split_from-All :
      (sep : Text) (skip : ℕ) (s : Text) → All P s → All (All P) (split_from sep skip s)
  unfolding split_from
  split_from-All sep skip [] h = (tt, tt)
  split_from-All sep (suc skip) (c ∷ s) (p, h) = split_from-All sep skip s h
  split_from-All sep zero (c ∷ s) (p, h) = elim (Bool-cases (has_prefix (c ∷ s) sep)) [
    | inl found ↦ rw (split_from-found sep c s found) (tt, split_from-All sep (length sep - 1) s h)
    | inr other ↦
        rw (split_from-other sep c s other) (cons_head-All c _ p (split_from-All sep 0 s h))
  ]

  pub split-All : (s sep : Text) → All P s → All (All P) (split s sep)
  unfolding split
  split-All s sep h = split_from-All sep 0 s h

  pub last_part-All : (parts : List Text) → All (All P) parts → All P (last_part parts)
  unfolding last_part
  last_part-All [] h = tt
  last_part-All (part ∷ []) (p, h) = p
  last_part-All (part ∷ next ∷ parts) (p, h) = last_part-All (next ∷ parts) h

  all_but_last-All : (parts : List Text) → All (All P) parts → All (All P) (all_but_last parts)
  unfolding all_but_last
  all_but_last-All [] h = tt
  all_but_last-All (part ∷ []) h = tt
  all_but_last-All (part ∷ next ∷ parts) (p, h) = (p, all_but_last-All (next ∷ parts) h)

  join-All :
      (parts : List Text) (sep : Text) → All P sep → All (All P) parts → All P (join parts sep)
  unfolding join
  join-All [] sep s h = tt
  join-All (part ∷ []) sep s (p, h) = p
  join-All (part ∷ next ∷ parts) sep s (p, h) =
      All-append P part _ p (All-append P sep _ s (join-All (next ∷ parts) sep s h))

  -- The parts before the last, joined.
  pub join-all_but_last-All :
      (parts : List Text) (sep : Text)
      → All P sep
      → All (All P) parts
      → All P (join (all_but_last parts) sep)
  join-all_but_last-All parts sep s h = join-All _ sep s (all_but_last-All parts h)
