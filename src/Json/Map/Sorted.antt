-- ===== src/Json/Map/Sorted.antt =====
-- A map in the order of its keys, and after it has been decoded.
use ticketbutler_proxy.Common.{
  ◌≡◌, refl, sym, ◌∙◌, ap, true, none, some, [], ◌∷◌, ◌++◌, All, arith, if◌then◌else◌, inl, inr,
  Bool-cases,
}
use mathlib.Core.List.{append_assoc, append-nil}
use ticketbutler_proxy.Text.{Text, text_eq, text_lt}
use ticketbutler_proxy.Text.Order.{
  text_eq_iff, text_lt_irrefl, text_lt_trans, text_lt_total, text_lt_asymm,
}
use ticketbutler_proxy.Dict.{Dict, lookup, insert, lookup-insert}
use ticketbutler_proxy.Json.Kind.{Kind}
use ticketbutler_proxy.Json.Map.{insert_by_key, sort_by_key, fill, put_map, restore_map}

module _ {V : Type 0} where
  -- No key stands twice in a map.
  abbrev pub IsDistinct : Dict V → Type 0
  IsDistinct [] = Unit
  IsDistinct ((k, v) ∷ m) = (lookup k m ≡ none) × IsDistinct m

  abbrev IsAbove : Text → Dict V → Type 0
  IsAbove k = All (λ e. text_lt k e.0 ≡ true)

  abbrev IsAscending : Dict V → Type 0
  IsAscending [] = Unit
  IsAscending ((k, v) ∷ m) = IsAbove k m × IsAscending m

  pub insert-IsDistinct : (k : Text) (v : V) (m : Dict V) → IsDistinct m → IsDistinct (insert k v m)
  unfolding insert lookup
  insert-IsDistinct k v [] h = (refl, tt)
  insert-IsDistinct k v ((j, w) ∷ m) (fresh, rest) = elim (Bool-cases (text_eq j k)) [
    | inl same ↦ let e : j ≡ k = (text_eq_iff j k).0 same in rw same (rw (← e) fresh, rest)
    | inr other ↦ rw other (
      lookup-insert k j v m ∙ ground (arith, text_eq_iff j k, text_eq_iff k j),
      insert-IsDistinct k v m rest,
    )
  ]

  IsAbove-trans : (j k : Text) (m : Dict V) → text_lt j k ≡ true → IsAbove k m → IsAbove j m
  IsAbove-trans j k [] h a = tt
  IsAbove-trans j k ((i, v) ∷ m) h (a, rest) = (text_lt_trans j k i h a, IsAbove-trans j k m h rest)

  IsAbove-insert :
      (j k : Text) (v : V) (m : Dict V)
      → text_lt j k ≡ true
      → IsAbove j m
      → IsAbove j (insert_by_key k v m)
  unfolding insert_by_key
  IsAbove-insert j k v [] h a = (h, tt)
  IsAbove-insert j k v ((i, w) ∷ m) h (a, rest) = elim (Bool-cases (text_lt k i)) [
    | inl below ↦ rw below (h, (a, rest))
    | inr other ↦ rw other (a, IsAbove-insert j k v m h rest)
  ]

  insert_by_key-IsAscending :
      (k : Text) (v : V) (m : Dict V)
      → lookup k m ≡ none
      → IsAscending m
      → IsAscending (insert_by_key k v m)
  unfolding insert_by_key lookup
  insert_by_key-IsAscending k v [] h a = (tt, tt)
  insert_by_key-IsAscending k v ((i, w) ∷ m) h (a, rest) = elim (text_lt_total k i) [
    | inl below ↦ rw below ((below, IsAbove-trans k i m below a), (a, rest))
    | inr (inl same) ↦ cc (rw ((text_eq_iff i k).1 (sym same)) at h)
    | inr (inr above) ↦
        let other : lookup k m ≡ none = ground (arith, h, text_eq_iff i k, text_lt_irrefl k) in
        rw (text_lt_asymm i k above)
          (IsAbove-insert i k v m above a, insert_by_key-IsAscending k v m other rest)
  ]

  lookup-insert_by_key :
      (k j : Text) (v : V) (m : Dict V)
      → lookup k m ≡ none
      → lookup j (insert_by_key k v m) ≡ (if text_eq k j then some v else lookup j m)
  unfolding insert_by_key lookup
  lookup-insert_by_key k j v [] h = refl
  lookup-insert_by_key k j v ((i, w) ∷ m) h = elim (Bool-cases (text_lt k i)) [
    | inl below ↦ rw below
    | inr not_below ↦ rw not_below (
        ground
          (arith, text_eq_iff i k, text_eq_iff i j, text_eq_iff k j, lookup-insert_by_key k j v m))
  ]

  pub lookup-sort_by_key :
      (j : Text) (m : Dict V) → IsDistinct m → lookup j (sort_by_key m) ≡ lookup j m
  unfolding sort_by_key lookup
  lookup-sort_by_key j [] h = refl
  lookup-sort_by_key j ((k, v) ∷ m) (fresh, rest) =
      lookup-insert_by_key k j v (sort_by_key m) (lookup-sort_by_key k m rest ∙ fresh)
      ∙ rw (lookup-sort_by_key j m rest)

  sort_by_key-IsAscending : (m : Dict V) → IsDistinct m → IsAscending (sort_by_key m)
  unfolding sort_by_key
  sort_by_key-IsAscending [] h = tt
  sort_by_key-IsAscending ((k, v) ∷ m) (fresh, rest) =
      insert_by_key-IsAscending k v (sort_by_key m) (lookup-sort_by_key k m rest ∙ fresh)
        (sort_by_key-IsAscending m rest)

  insert_by_key-first :
      (k : Text) (v : V) (m : Dict V) → IsAbove k m → insert_by_key k v m ≡ (k, v) ∷ m
  unfolding insert_by_key
  insert_by_key-first k v [] h = refl
  insert_by_key-first k v ((i, w) ∷ m) (below, rest) = rw below

  sort_by_key_same : (m : Dict V) → IsAscending m → sort_by_key m ≡ m
  unfolding sort_by_key
  sort_by_key_same [] h = refl
  sort_by_key_same ((k, v) ∷ m) (above, rest) =
      rw (sort_by_key_same m rest) (insert_by_key-first k v m above)

  insert-snoc :
      (k : Text) (v : V) (m : Dict V) → lookup k m ≡ none → insert k v m ≡ m ++ (k, v) ∷ []
  unfolding insert lookup
  insert-snoc k v [] h = refl
  insert-snoc k v ((j, w) ∷ m) h = elim (Bool-cases (text_eq j k)) [
    | inl same ↦ cc (rw same at h)
    | inr other ↦ rw other (ap (λ n. (j, w) ∷ n) (insert-snoc k v m (rw other at h)))
  ]

  -- The keys of the first map are not in the second.
  abbrev IsApart : Dict V → Dict V → Type 0
  IsApart entries m = All (λ e. lookup e.0 m ≡ none) entries

  IsApart-insert :
      (k : Text) (v : V) (entries m : Dict V)
      → IsAbove k entries
      → IsApart entries m
      → IsApart entries (insert k v m)
  IsApart-insert k v [] m a h = tt
  IsApart-insert k v ((j, w) ∷ entries) m (below, a) (apart, h) = (
    lookup-insert k j v m ∙ ground (arith, text_eq_iff k j, text_lt_irrefl k),
    IsApart-insert k v entries m a h,
  )

  fill-append :
      (entries m : Dict V)
      → IsAscending entries
      → IsApart entries m
      → fill (λ (v : V). v) entries m ≡ m ++ entries
  unfolding fill
  fill-append [] m a h = sym (append-nil m)
  fill-append ((k, v) ∷ entries) m (above, a) (apart, h) =
      fill-append entries (insert k v m) a (IsApart-insert k v entries m above h)
      ∙ rw (insert-snoc k v m apart) (simp append_assoc)

  -- A map is decoded in the order of its keys.
  pub restore_map-sort_by_key :
      (m : Dict V) → IsDistinct m → restore_map (λ (v : V). v) m ≡ sort_by_key m
  unfolding lookup
  restore_map-sort_by_key m h =
      fill-append (sort_by_key m) [] (sort_by_key-IsAscending m h) (IsApart-nil (sort_by_key m))
    where
      IsApart-nil : (entries : Dict V) → IsApart entries []
      IsApart-nil [] = tt
      IsApart-nil (e ∷ entries) = (refl, IsApart-nil entries)

  -- So its JSON is the same again.
  pub put_map-restore_map :
      (kind : Kind V) (m : Dict V)
      → IsDistinct m
      → put_map kind (restore_map (λ (v : V). v) m) ≡ put_map kind m
  unfolding put_map
  put_map-restore_map kind m h =
      rw (restore_map-sort_by_key m h)
        (rw (sort_by_key_same (sort_by_key m) (sort_by_key-IsAscending m h)))
