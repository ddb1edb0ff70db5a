-- ===== src/Json/Struct.antt =====
-- A struct with its tags: each field has its name in an object, how it is put and how it is set. A name
-- is matched without regard to case, and an unknown one is passed over.
pub mod Laws
use ticketbutler_proxy.Common.{
  ◌≡◌, Bool, true, false, Option, none, some, List, [], ◌∷◌, if◌then◌else◌,
}
use ticketbutler_proxy.Text.{Text, equal_fold}
use ticketbutler_proxy.Errors.{Result, ok, err, ◌>>=◌}
use ticketbutler_proxy.Json.Value.{
  Json, null, bool, number, text, array, object, Fields, end, entry,
}
use ticketbutler_proxy.Json.Kind.{Kind, wrong_type}

-- `none` is a field that `omitempty` leaves out.
pub record Field (T : Type 0) : Type 0 where
  pub tag : Text
  pub put : T → Result (Option Json)
  pub set : Json → T → Result T

module _ {T A : Type 0} where
  abbrev pub field : Text → Kind A → (T → A) → (A → T → T) → Field T
  field tag kind value update = record {
    tag = tag;
    put = λ x. kind.put (value x) >>= λ j. ok (some j);
    set = λ j x. kind.get j >>= λ a. ok (update a x);
  }

-- A `json.RawMessage` with `omitempty`.
abbrev pub raw_field : {T : Type 0} → Text → (T → Option Json) → (Option Json → T → T) → Field T
raw_field tag value update = record {
  tag = tag;
  put = λ x. ok (value x);
  set = λ j x. ok (update (some j) x);
}

unfoldable pub put_option : Text → Option Json → Fields → Fields
put_option tag none rest = rest
put_option tag (some j) rest = entry tag j rest

module _ {T : Type 0} where
  unfoldable pub find_field : List (Field T) → Text → Option (Field T)
  find_field [] name = none
  find_field (f ∷ table) name = if equal_fold name f.tag then some f else find_field table name

  unfoldable pub put_fields : List (Field T) → T → Result Fields
  unfolding put_option
  put_fields [] x = ok end
  put_fields (f ∷ table) x =
      f.put x >>= λ j. put_fields table x >>= λ rest. ok (put_option f.tag j rest)

  abbrev pub set_found : Option (Field T) → Json → T → Result T
  set_found none j x = ok x
  set_found (some f) j x = f.set j x

  unfoldable pub set_fields : List (Field T) → Fields → T → Result T
  unfolding find_field
  set_fields table end x = ok x
  set_fields table (entry name j rest) x =
      set_found (find_field table name) j x >>= λ y. set_fields table rest y

  unfoldable pub put_struct : List (Field T) → T → Result Json
  unfolding put_fields
  put_struct table x = put_fields table x >>= λ fields. ok (object fields)

  unfoldable pub get_struct : List (Field T) → T → Json → Result T
  unfolding set_fields
  get_struct table zero_value (object fields) = set_fields table fields zero_value
  get_struct table zero_value null = ok zero_value
  get_struct table zero_value (bool b) = wrong_type
  get_struct table zero_value (number s) = wrong_type
  get_struct table zero_value (text s) = wrong_type
  get_struct table zero_value (array items) = wrong_type

  abbrev pub struct_kind : List (Field T) → T → Kind T
  struct_kind table zero_value = record {
    zero_value = zero_value;
    put = put_struct table;
    get = get_struct table zero_value;
  }
