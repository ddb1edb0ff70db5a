-- ===== src/Json/Kind/Laws.antt =====
-- The kinds of single values, pointers and slices, decoded from what they encode.
use ticketbutler_proxy.Common.{
  ◌≡◌, ◌≢◌, refl, ◌∙◌, ap, Option, none, some, List, [], ◌∷◌, map, inl, inr, Bool-cases,
}
use mathlib.Core.Option
use ticketbutler_proxy.Int.{ℤ, pos}
use ticketbutler_proxy.Errors.{Result, ok, err, ◌>>=◌}
use ticketbutler_proxy.Json.Value.{Json, null, bool, number, text, array, object, Items}
use ticketbutler_proxy.Json.Number.{in_int64, atoi-print_int}
use ticketbutler_proxy.Json.Kind.{
  Kind, IsKind, text_kind, bool_kind, int_kind, pointer_kind, slice_kind, get_text, get_bool,
  get_number, get_int, put_int, put_pointer, get_pointer, put_items, get_items, put_slice,
  get_slice, count_kind, nil_slice_kind, put_nil_slice,
}

-- Two results of one computation.
pub ok_inj : {A : Type 0} {x y : A} → ◌≡◌ {A = Result A} (ok x) (ok y) → x ≡ y
ok_inj h = cc

-- A chain without error had none in its first call, and none after it.
pub >>=-ok_inv :
    {A B : Type 0} (first : Result A) (next : A → Result B) {y : B}
    → (first >>= next) ≡ ok y
    → (x : A) × (first ≡ ok x) × (next x ≡ ok y)
>>=-ok_inv (err e) next done = cc
>>=-ok_inv (ok x) next done = (x, refl, done)

pub text_kind-IsKind : IsKind text_kind (λ s. s)
unfolding get_text
text_kind-IsKind = record { get-put = λ s j h. rw (← ok_inj h) refl }

pub bool_kind-IsKind : IsKind bool_kind (λ b. b)
unfolding get_bool
bool_kind-IsKind = record { get-put = λ b j h. rw (← ok_inj h) refl }

get-put_int : (z : ℤ) (j : Json) → put_int z ≡ ok j → get_int j ≡ ok z
unfolding put_int get_int get_number
get-put_int z j h = elim (Bool-cases (in_int64 z)) [
  | inl fits ↦ rw (← ok_inj (rw fits at h)) (rw (atoi-print_int z fits))
  | inr large ↦ cc (rw large at h)
]

pub int_kind-IsKind : IsKind int_kind (λ z. z)
int_kind-IsKind = record { get-put = get-put_int }

module _ {A : Type 0} {kind : Kind A} {restore : A → A} (law : IsKind kind restore) where
  get_items-put_items :
      (xs : List A) (js : Items)
      → put_items kind xs ≡ ok js
      → get_items kind js ≡ ok (map restore xs)
  unfolding put_items get_items
  get_items-put_items [] js h = rw (← ok_inj h) refl
  get_items-put_items (x ∷ xs) js h =
      let (j, put_x, h₁) = >>=-ok_inv (kind.put x) _ h in
      let (rest, put_xs, h₂) = >>=-ok_inv (put_items kind xs) _ h₁ in
      rw (← ok_inj h₂) (rw (law.get-put x j put_x, get_items-put_items xs rest put_xs))

  get_slice-put_slice :
      (xs : List A) (j : Json) → put_slice kind xs ≡ ok j → get_slice kind j ≡ ok (map restore xs)
  unfolding put_slice get_slice
  get_slice-put_slice xs j h =
      let (js, put_xs, h₁) = >>=-ok_inv (put_items kind xs) _ h in
      rw (← ok_inj h₁) (get_items-put_items xs js put_xs)

  pub slice_kind-IsKind : IsKind (slice_kind kind) (map restore)
  slice_kind-IsKind = record { get-put = get_slice-put_slice }

  get_pointer-of_value :
      (x : A) (j : Json) → j ≢ null → kind.get j ≡ ok x → get_pointer kind j ≡ ok (some x)
  unfolding get_pointer
  get_pointer-of_value x null h k = absurd (h refl)
  get_pointer-of_value x (bool b) h k = rw k
  get_pointer-of_value x (number s) h k = rw k
  get_pointer-of_value x (text s) h k = rw k
  get_pointer-of_value x (array items) h k = rw k
  get_pointer-of_value x (object fields) h k = rw k

  module _ (not_null : (x : A) → kind.put x ≢ ok null) where
    get_pointer-put_pointer :
        (o : Option A) (j : Json)
        → put_pointer kind o ≡ ok j
        → get_pointer kind j ≡ ok (Option.map restore o)
    unfolding put_pointer get_pointer
    get_pointer-put_pointer none j h = rw (← ok_inj h) refl
    get_pointer-put_pointer (some x) j h =
        get_pointer-of_value (restore x) j (λ e. not_null x (h ∙ ap ok e)) (law.get-put x j h)

    pub pointer_kind-IsKind : IsKind (pointer_kind kind) (Option.map restore)
    pointer_kind-IsKind = record { get-put = get_pointer-put_pointer }

pub IsKind-ext :
    {A : Type 0} {kind : Kind A} {r s : A → A}
    → IsKind kind r
    → ((x : A) → r x ≡ s x)
    → IsKind kind s
IsKind-ext law same = record { get-put = λ x j h. law.get-put x j h ∙ ap ok (same x) }

map_same : {A : Type 0} (xs : List A) → map (λ (x : A). x) xs ≡ xs
map_same [] = refl
map_same (x ∷ xs) = rw (map_same xs)

option_same : {A : Type 0} (o : Option A) → Option.map (λ (x : A). x) o ≡ o
option_same none = refl
option_same (some x) = refl

pub count_kind-IsKind : IsKind count_kind (λ n. n)
count_kind-IsKind = record { get-put = λ n j h. rw (get-put_int (pos n) j h) }

get_slice-put_nil_slice :
    {A : Type 0} {kind : Kind A}
    → IsKind kind (λ x. x)
    → (xs : List A) (j : Json) → put_nil_slice (put_slice kind) xs ≡ ok j
    → get_slice kind j ≡ ok xs
unfolding put_nil_slice get_slice
get_slice-put_nil_slice law [] j h = rw (← ok_inj h) refl
get_slice-put_nil_slice law (x ∷ xs) j h =
    get_slice-put_slice law (x ∷ xs) j h ∙ ap ok (map_same (x ∷ xs))

pub nil_slice_kind_same :
    {A : Type 0} {kind : Kind A} → IsKind kind (λ x. x) → IsKind (nil_slice_kind kind) (λ xs. xs)
nil_slice_kind_same law = record { get-put = get_slice-put_nil_slice law }

-- Where nothing changes in an item, nothing changes in a slice or behind a pointer.
pub slice_kind_same :
    {A : Type 0} {kind : Kind A} → IsKind kind (λ x. x) → IsKind (slice_kind kind) (λ xs. xs)
slice_kind_same law = IsKind-ext (slice_kind-IsKind law) map_same

pub pointer_kind_same :
    {A : Type 0} {kind : Kind A}
    → IsKind kind (λ x. x)
    → ((x : A) → kind.put x ≢ ok null)
    → IsKind (pointer_kind kind) (λ o. o)
pointer_kind_same law not_null = IsKind-ext (pointer_kind-IsKind law not_null) option_same
