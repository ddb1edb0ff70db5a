-- ===== src/Json/Postfix.antt =====
-- A text form of JSON to run the code on: values in postfix order, read with a stack. It shows that the
-- laws of a text form can be met.
use ticketbutler_proxy.Common.{
  ℕ, ◌+◌, ◌-◌, ◌≡◌, refl, ◌∙◌, ap, true, false, List, [], ◌∷◌, ◌++◌, arith, ◌==◌, if◌then◌else◌,
}
use ticketbutler_proxy.Text.{Text, codes}
use ticketbutler_proxy.Errors.{Bytes, Result, ok, err, message}
use ticketbutler_proxy.Json.Value.{
  Json, null, bool, number, text, array, object, Items, nil, cons, Fields, end, entry,
}

data Item : Type 0 where
  string : Text → Item
  value : Json → Item
  items : Items → Item
  fields : Fields → Item

add_char : ℕ → List Item → List Item
add_char c (string s ∷ st) = string (c ∷ s) ∷ st
add_char c st = st

make_number : List Item → List Item
make_number (string s ∷ st) = value (number s) ∷ st
make_number st = st

make_text : List Item → List Item
make_text (string s ∷ st) = value (text s) ∷ st
make_text st = st

make_cons : List Item → List Item
make_cons (value j ∷ items js ∷ st) = items (cons j js) ∷ st
make_cons st = st

make_array : List Item → List Item
make_array (items js ∷ st) = value (array js) ∷ st
make_array st = st

make_entry : List Item → List Item
make_entry (value j ∷ string k ∷ fields fs ∷ st) = fields (entry k j fs) ∷ st
make_entry st = st

make_object : List Item → List Item
make_object (fields fs ∷ st) = value (object fs) ∷ st
make_object st = st

step : ℕ → List Item → List Item
step n st =
    if n == 0
    then string [] ∷ st
    else if n == 1
    then value null ∷ st
    else if n == 2
    then value (bool false) ∷ st
    else if n == 3
    then value (bool true) ∷ st
    else if n == 4
    then make_number st
    else if n == 5
    then make_text st
    else if n == 6
    then items nil ∷ st
    else if n == 7
    then make_cons st
    else if n == 8
    then make_array st
    else if n == 9
    then fields end ∷ st
    else if n == 10
    then make_entry st
    else if n == 11
    then make_object st
    else add_char (n - 12) st

run : Bytes → List Item → List Item
run [] st = st
run (n ∷ bytes) st = run bytes (step n st)

print_text : Text → Bytes
print_text [] = 0 ∷ []
print_text (c ∷ s) = print_text s ++ (c + 12) ∷ []

mutual
  print_value : Json → Bytes
  print_value null = 1 ∷ []
  print_value (bool false) = 2 ∷ []
  print_value (bool true) = 3 ∷ []
  print_value (number s) = print_text s ++ 4 ∷ []
  print_value (text s) = print_text s ++ 5 ∷ []
  print_value (array js) = print_items js ++ 8 ∷ []
  print_value (object fs) = print_fields fs ++ 11 ∷ []

  print_items : Items → Bytes
  print_items nil = 6 ∷ []
  print_items (cons j js) = print_items js ++ (print_value j ++ 7 ∷ [])

  print_fields : Fields → Bytes
  print_fields end = 9 ∷ []
  print_fields (entry k j fs) = print_fields fs ++ (print_text k ++ (print_value j ++ 10 ∷ []))

run-append : (xs ys : Bytes) (st : List Item) → run (xs ++ ys) st ≡ run ys (run xs st)
unfolding run
run-append [] ys st = refl
run-append (x ∷ xs) ys st = run-append xs ys (step x st)

step_char : (c : ℕ) (st : List Item) → step (c + 12) st ≡ add_char c st
unfolding step
step_char c st = let e : c + 12 - 12 ≡ c = omega arith in rw e (ground arith)

run-print_text : (s : Text) (st : List Item) → run (print_text s) st ≡ string s ∷ st
unfolding run print_text step add_char
run-print_text [] st = refl
run-print_text (c ∷ s) st =
    run-append (print_text s) _ st
    ∙ ap (run ((c + 12) ∷ [])) (run-print_text s st)
    ∙ step_char c (string s ∷ st)

mutual
  unfolding run print_value print_items print_fields step make_number make_text make_cons make_array
      make_entry make_object

  run-print_value : (j : Json) (st : List Item) → run (print_value j) st ≡ value j ∷ st
  run-print_value null st = refl
  run-print_value (bool false) st = refl
  run-print_value (bool true) st = refl
  run-print_value (number s) st =
      run-append (print_text s) _ st ∙ ap (run (4 ∷ [])) (run-print_text s st)
  run-print_value (text s) st =
      run-append (print_text s) _ st ∙ ap (run (5 ∷ [])) (run-print_text s st)
  run-print_value (array js) st =
      run-append (print_items js) _ st ∙ ap (run (8 ∷ [])) (run-print_items js st)
  run-print_value (object fs) st =
      run-append (print_fields fs) _ st ∙ ap (run (11 ∷ [])) (run-print_fields fs st)

  run-print_items : (js : Items) (st : List Item) → run (print_items js) st ≡ items js ∷ st
  run-print_items nil st = refl
  run-print_items (cons j js) st =
      run-append (print_items js) _ st
      ∙ ap (run (print_value j ++ 7 ∷ [])) (run-print_items js st)
      ∙ run-append (print_value j) _ (items js ∷ st)
      ∙ ap (run (7 ∷ [])) (run-print_value j (items js ∷ st))

  run-print_fields : (fs : Fields) (st : List Item) → run (print_fields fs) st ≡ fields fs ∷ st
  run-print_fields end st = refl
  run-print_fields (entry k j fs) st =
      run-append (print_fields fs) _ st
      ∙ ap (run (print_text k ++ (print_value j ++ 10 ∷ []))) (run-print_fields fs st)
      ∙ run-append (print_text k) _ (fields fs ∷ st)
      ∙ ap (run (print_value j ++ 10 ∷ [])) (run-print_text k (fields fs ∷ st))
      ∙ run-append (print_value j) _ (string k ∷ fields fs ∷ st)
      ∙ ap (run (10 ∷ [])) (run-print_value j (string k ∷ fields fs ∷ st))

read_stack : List Item → Result Json
read_stack (value j ∷ []) = ok j
read_stack st = err (message (codes "unexpected end of JSON input"))

unfoldable pub print : Json → Bytes
unfolding print_value print_items print_fields print_text
print j = print_value j

pub parse : Bytes → Result Json
unfolding run read_stack
parse bytes = read_stack (run bytes [])

pub parse-print : (j : Json) → parse (print j) ≡ ok j
unfolding parse print read_stack
parse-print j = ap read_stack (run-print_value j [])
