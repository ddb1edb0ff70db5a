-- ===== src/Json/Struct/Laws.antt =====
-- A struct decoded from what it encodes, by the fields of its table.
use ticketbutler_proxy.Common.{◌≡◌, ◌≢◌, refl, ◌∙◌, ap, Option, none, some, List, [], ◌∷◌, All}
use ticketbutler_proxy.Text.{Text}
use ticketbutler_proxy.Errors.{ok}
use ticketbutler_proxy.Json.Value.{Json, null, Fields}
use ticketbutler_proxy.Json.Kind.{Kind, IsKind}
use ticketbutler_proxy.Json.Kind.Laws.{ok_inj, >>=-ok_inv}
use ticketbutler_proxy.Json.Struct.{
  Field, field, raw_field, find_field, put_option, put_fields, set_fields, put_struct, get_struct,
  struct_kind,
}

module _ {T : Type 0} where
  -- What setting a field does to `y`, where `x` was put.
  pub record IsField (f : Field T) (copy : T → T → T) : Type 0 where
    pub set-put : (x y : T) (j : Json) → f.put x ≡ ok (some j) → f.set j y ≡ ok (copy x y)
    pub copy_omitted : (x y : T) → f.put x ≡ ok none → copy x y ≡ y

  abbrev pub AreFields : List (Field T) → List (T → T → T) → Type 0
  AreFields [] [] = Unit
  AreFields (f ∷ fs) (copy ∷ copies) = IsField f copy × AreFields fs copies
  AreFields [] (copy ∷ copies) = ⊥
  AreFields (f ∷ fs) [] = ⊥

  abbrev pub copy_all : List (T → T → T) → T → T → T
  copy_all [] x y = y
  copy_all (copy ∷ copies) x y = copy_all copies x (copy x y)

  -- Each tag of a list leads to its own field.
  abbrev pub AreFound : List (Field T) → List (Field T) → Type 0
  AreFound table fs = All (λ f. find_field table f.tag ≡ some f) fs

  -- One field, then those that follow it.
  put_option_set :
      (table : List (Field T)) (f : Field T) (copy : T → T → T) (copies : List (T → T → T))
      → IsField f copy
      → find_field table f.tag ≡ some f
      → (x y : T) (j : Option Json) (rest : Fields) → f.put x ≡ ok j
      → ((z : T) → set_fields table rest z ≡ ok (copy_all copies x z))
      → set_fields table (put_option f.tag j rest) y ≡ ok (copy_all copies x (copy x y))
  unfolding put_option set_fields
  put_option_set table f copy copies law here x y none rest put_f ih =
      rw (law.copy_omitted x y put_f) (ih y)
  put_option_set table f copy copies law here x y (some j) rest put_f ih =
      rw here (rw (law.set-put x y j put_f) (ih (copy x y)))

  set_fields-put_fields :
      (table fs : List (Field T)) (copies : List (T → T → T)) (x y : T) (fields : Fields)
      → AreFields fs copies
      → AreFound table fs
      → put_fields fs x ≡ ok fields
      → set_fields table fields y ≡ ok (copy_all copies x y)
  unfolding put_fields set_fields
  set_fields-put_fields table [] [] x y fields laws found h = rw (← ok_inj h) refl
  set_fields-put_fields table [] (copy ∷ copies) x y fields laws found h = absurd laws
  set_fields-put_fields table (f ∷ fs) [] x y fields laws found h = absurd laws
  set_fields-put_fields table (f ∷ fs) (copy ∷ copies) x y fields (law, laws) (here, found) h =
      let (j, put_f, h₁) = >>=-ok_inv (f.put x) _ h in
      let (rest, put_fs, h₂) = >>=-ok_inv (put_fields fs x) _ h₁ in
      rw (← ok_inj h₂) (
        put_option_set table f copy copies law here x y j rest put_f
          (λ z. set_fields-put_fields table fs copies x z rest laws found put_fs))

  get_struct-put_struct :
      (table : List (Field T)) (zero_value : T) (copies : List (T → T → T)) (x : T) (j : Json)
      → AreFields table copies
      → AreFound table table
      → put_struct table x ≡ ok j
      → get_struct table zero_value j ≡ ok (copy_all copies x zero_value)
  unfolding put_struct get_struct
  get_struct-put_struct table zero_value copies x j laws found h =
      let (fields, put_x, h₁) = >>=-ok_inv (put_fields table x) _ h in
      rw (← ok_inj h₁)
        (set_fields-put_fields table table copies x zero_value fields laws found put_x)

  pub struct_kind-IsKind :
      (table : List (Field T)) (zero_value : T) (copies : List (T → T → T)) (restore : T → T)
      → AreFields table copies
      → AreFound table table
      → ((x : T) → copy_all copies x zero_value ≡ restore x)
      → IsKind (struct_kind table zero_value) restore
  struct_kind-IsKind table zero_value copies restore laws found copied = record {
    get-put =
        λ x j h. get_struct-put_struct table zero_value copies x j laws found h ∙ ap ok (copied x);
  }

  pub put_struct-ne-null : (table : List (Field T)) (x : T) → put_struct table x ≢ ok null
  unfolding put_struct
  put_struct-ne-null table x h = let (fields, _, h₁) = >>=-ok_inv (put_fields table x) _ h in cc

module _ {T A : Type 0} {kind : Kind A} {restore : A → A} (law : IsKind kind restore) (tag : Text)
    (value : T → A) (update : A → T → T) where
  pub field-IsField : IsField (field tag kind value update) (λ x y. update (restore (value x)) y)
  field-IsField = record {
    set-put = λ x y j h.
        let (j', put_x, h₁) = >>=-ok_inv (kind.put (value x)) _ h in
        let same : j' ≡ j = cc in rw (law.get-put (value x) j (put_x ∙ ap ok same));
    copy_omitted = λ x y h. let (j, _, h₁) = >>=-ok_inv (kind.put (value x)) _ h in cc;
  }

-- A raw value that is left out leaves the field alone.
abbrev pub copy_raw : {T : Type 0} → (Option Json → T → T) → Option Json → T → T
copy_raw update none y = y
copy_raw update (some j) y = update (some j) y

pub raw_field-IsField :
    {T : Type 0} (tag : Text) (value : T → Option Json) (update : Option Json → T → T)
    → IsField (raw_field tag value update) (λ x y. copy_raw update (value x) y)
raw_field-IsField tag value update = record {
  set-put = λ x y j h. let same : value x ≡ some j = cc in rw same;
  copy_omitted = λ x y h. let same : value x ≡ none = cc in rw same;
}
