-- ===== src/Json/Kind.antt =====
-- How a Go type is encoded and decoded: `put` and `get`. A value is decoded into the zero value of
-- its type, and null leaves it so; a key occurs once in an object. encoding/json goes on past a value
-- of a wrong type and returns that error at the end; nothing that it decodes by then is used.
pub mod Laws
use ticketbutler_proxy.Common.{
  ℕ, ◌≡◌, refl, sym, ◌∙◌, ap, Bool, true, false, Option, none, some, List, [], ◌∷◌, arith,
  if◌then◌else◌,
}
use ticketbutler_proxy.Int.{ℤ, pos}
use ticketbutler_proxy.Text.{Text, codes}
use ticketbutler_proxy.Errors.{Err, message, Result, ok, err, ◌>>=◌}
use ticketbutler_proxy.Config.Values.{atoi}
use ticketbutler_proxy.Json.Value.{
  Json, null, bool, number, text, array, object, Items, nil, cons, Fields, end, entry,
}
use ticketbutler_proxy.Json.Number.{print_int, in_int64, atoi-print_int}

pub record Kind (A : Type 0) : Type 0 where
  pub zero_value : A
  pub put : A → Result Json
  pub get : Json → Result A

-- What is encoded is decoded as its restored value.
pub record IsKind {A : Type 0} (kind : Kind A) (restore : A → A) : Type 0 where
  pub get-put : (x : A) (j : Json) → kind.put x ≡ ok j → kind.get j ≡ ok (restore x)

abbrev pub wrong_type : {A : Type 0} → Result A
wrong_type = err (message (codes "json: cannot unmarshal value"))

unfoldable pub get_text : Json → Result Text
get_text null = ok []
get_text (text s) = ok s
get_text (bool b) = wrong_type
get_text (number s) = wrong_type
get_text (array items) = wrong_type
get_text (object fields) = wrong_type

abbrev pub text_kind : Kind Text
text_kind = record { zero_value = []; put = λ s. ok (text s); get = get_text }

unfoldable pub get_bool : Json → Result Bool
get_bool null = ok false
get_bool (bool b) = ok b
get_bool (text s) = wrong_type
get_bool (number s) = wrong_type
get_bool (array items) = wrong_type
get_bool (object fields) = wrong_type

abbrev pub bool_kind : Kind Bool
bool_kind = record { zero_value = false; put = λ b. ok (bool b); get = get_bool }

-- A `parse` that fails is an error of the decoder.
abbrev pub parsed : {A : Type 0} → Option A → Result A
parsed none = wrong_type
parsed (some a) = ok a

unfoldable pub get_number : {A : Type 0} → A → (Text → Option A) → Json → Result A
get_number zero_value parse null = ok zero_value
get_number zero_value parse (number s) = parsed (parse s)
get_number zero_value parse (text s) = wrong_type
get_number zero_value parse (bool b) = wrong_type
get_number zero_value parse (array items) = wrong_type
get_number zero_value parse (object fields) = wrong_type

-- An integer beyond 64 bits is no `int`: the second case of `put_int` does not occur.
unfoldable pub put_int : ℤ → Result Json
put_int z = if in_int64 z then ok (number (print_int z)) else wrong_type

unfoldable pub get_int : Json → Result ℤ
unfolding get_number
get_int = get_number (pos 0) atoi

abbrev pub int_kind : Kind ℤ
int_kind = record { zero_value = pos 0; put = put_int; get = get_int }

-- An `int` that only counts: it is not negative in what the service writes.
abbrev pub not_negative : ℤ → Result ℕ
not_negative (pos n) = ok n
not_negative (ℤ.negsuc n) = wrong_type

abbrev pub count_kind : Kind ℕ
count_kind = record {
  zero_value = 0;
  put = λ n. put_int (pos n);
  get = λ j. get_int j >>= not_negative;
}

-- A slice that is nil where it has no items, and is written as null then.
unfoldable pub put_nil_slice : {A : Type 0} → (List A → Result Json) → List A → Result Json
put_nil_slice put [] = ok null
put_nil_slice put (x ∷ xs) = put (x ∷ xs)

module _ {A : Type 0} (kind : Kind A) where
  -- A pointer: nil is null.
  unfoldable pub put_pointer : Option A → Result Json
  put_pointer none = ok null
  put_pointer (some x) = kind.put x

  unfoldable pub get_pointer : Json → Result (Option A)
  get_pointer null = ok none
  get_pointer (bool b) = kind.get (bool b) >>= λ x. ok (some x)
  get_pointer (number s) = kind.get (number s) >>= λ x. ok (some x)
  get_pointer (text s) = kind.get (text s) >>= λ x. ok (some x)
  get_pointer (array items) = kind.get (array items) >>= λ x. ok (some x)
  get_pointer (object fields) = kind.get (object fields) >>= λ x. ok (some x)

  abbrev pub pointer_kind : Kind (Option A)
  pointer_kind = record { zero_value = none; put = put_pointer; get = get_pointer }

  -- A slice. The nil slice, which is written as null, is a list without items here.
  unfoldable pub put_items : List A → Result Items
  put_items [] = ok nil
  put_items (x ∷ xs) = kind.put x >>= λ j. put_items xs >>= λ js. ok (cons j js)

  unfoldable pub get_items : Items → Result (List A)
  get_items nil = ok []
  get_items (cons j js) = kind.get j >>= λ x. get_items js >>= λ xs. ok (x ∷ xs)

  unfoldable pub put_slice : List A → Result Json
  unfolding put_items
  put_slice xs = put_items xs >>= λ items. ok (array items)

  unfoldable pub get_slice : Json → Result (List A)
  unfolding get_items
  get_slice null = ok []
  get_slice (array items) = get_items items
  get_slice (bool b) = wrong_type
  get_slice (number s) = wrong_type
  get_slice (text s) = wrong_type
  get_slice (object fields) = wrong_type

  abbrev pub slice_kind : Kind (List A)
  slice_kind = record { zero_value = []; put = put_slice; get = get_slice }

  abbrev pub nil_slice_kind : Kind (List A)
  nil_slice_kind = record { zero_value = []; put = put_nil_slice put_slice; get = get_slice }
