-- ===== src/Json/Map.antt =====
-- A Go map with string keys: encoded in the order of its keys, and decoded key by key.
pub mod Sorted
use ticketbutler_proxy.Common.{
  ◌≡◌, ◌≢◌, refl, sym, ◌∙◌, ap, Bool, true, false, Option, none, some, List, [], ◌∷◌, arith,
  if◌then◌else◌,
}
use ticketbutler_proxy.Text.{Text, text_lt}
use ticketbutler_proxy.Dict.{Dict, insert}
use ticketbutler_proxy.Errors.{Result, ok, err, ◌>>=◌}
use ticketbutler_proxy.Json.Value.{
  Json, null, bool, number, text, array, object, Items, Fields, end, entry,
}
use ticketbutler_proxy.Json.Kind.{Kind, IsKind, wrong_type}
use ticketbutler_proxy.Json.Kind.Laws.{ok_inj, >>=-ok_inv}

module _ {V : Type 0} where
  unfoldable pub insert_by_key : Text → V → Dict V → Dict V
  insert_by_key k v [] = (k, v) ∷ []
  insert_by_key k v ((j, w) ∷ m) =
      if text_lt k j then (k, v) ∷ (j, w) ∷ m else (j, w) ∷ insert_by_key k v m

  unfoldable pub sort_by_key : Dict V → Dict V
  unfolding insert_by_key
  sort_by_key [] = []
  sort_by_key ((k, v) ∷ m) = insert_by_key k v (sort_by_key m)

  -- The entries, put into a map one after the other, each with its restored value.
  unfoldable pub fill : (V → V) → Dict V → Dict V → Dict V
  fill restore [] m = m
  fill restore ((k, v) ∷ entries) m = fill restore entries (insert k (restore v) m)

module _ {V : Type 0} (kind : Kind V) where
  unfoldable pub put_entries : Dict V → Result Fields
  put_entries [] = ok end
  put_entries ((k, v) ∷ m) = kind.put v >>= λ j. put_entries m >>= λ rest. ok (entry k j rest)

  unfoldable pub get_entries : Fields → Dict V → Result (Dict V)
  get_entries end m = ok m
  get_entries (entry k j rest) m = kind.get j >>= λ v. get_entries rest (insert k v m)

  unfoldable pub put_map : Dict V → Result Json
  unfolding put_entries sort_by_key
  put_map m = put_entries (sort_by_key m) >>= λ fields. ok (object fields)

  unfoldable pub get_map : Json → Result (Dict V)
  unfolding get_entries
  get_map null = ok []
  get_map (object fields) = get_entries fields []
  get_map (bool b) = wrong_type
  get_map (number s) = wrong_type
  get_map (text s) = wrong_type
  get_map (array items) = wrong_type

  abbrev pub map_kind : Kind (Dict V)
  map_kind = record { zero_value = []; put = put_map; get = get_map }

-- A map as it is decoded.
abbrev pub restore_map : {V : Type 0} → (V → V) → Dict V → Dict V
restore_map restore m = fill restore (sort_by_key m) []

module _ {V : Type 0} {kind : Kind V} {restore : V → V} (law : IsKind kind restore) where
  get_entries-put_entries :
      (entries m : Dict V) (fields : Fields)
      → put_entries kind entries ≡ ok fields
      → get_entries kind fields m ≡ ok (fill restore entries m)
  unfolding put_entries get_entries fill
  get_entries-put_entries [] m fields h = rw (← ok_inj h) refl
  get_entries-put_entries ((k, v) ∷ entries) m fields h =
      let (j, put_v, h₁) = >>=-ok_inv (kind.put v) _ h in
      let (rest, put_rest, h₂) = >>=-ok_inv (put_entries kind entries) _ h₁ in
      rw (← ok_inj h₂) (
        rw (law.get-put v j put_v)
          (get_entries-put_entries entries (insert k (restore v) m) rest put_rest))

  get_map-put_map :
      (m : Dict V) (j : Json) → put_map kind m ≡ ok j → get_map kind j ≡ ok (restore_map restore m)
  unfolding put_map get_map
  get_map-put_map m j h =
      let (fields, put_m, h₁) = >>=-ok_inv (put_entries kind (sort_by_key m)) _ h in
      rw (← ok_inj h₁) (get_entries-put_entries (sort_by_key m) [] fields put_m)

  pub map_kind-IsKind : IsKind (map_kind kind) (restore_map restore)
  map_kind-IsKind = record { get-put = get_map-put_map }
