-- ===== src/Legacy/Tests.antt =====
-- Runs of the script and of the port on a small payload, in a runtime that lowers ASCII alone.
use ticketbutler_proxy.Common.{
  ℕ, ◌≡◌, refl, true, false, ◌||◌, Option, none, some, List, [], ◌∷◌, String, arith,
}
use ticketbutler_proxy.Int.{pos}
use mathlib.Core.Option
use ticketbutler_proxy.Json.Value.{text, number, token}
use ticketbutler_proxy.Dict.{lookup, insert}
use ticketbutler_proxy.Float.Milli.{milli, read_scaled}
use ticketbutler_proxy.Text.{
  Text, codes, text_eq, text_lt, ascii_lower, trim_space, to_lower, text_functions,
}
use ticketbutler_proxy.Text.Ascii.{ascii_case}
use ticketbutler_proxy.Ticketbutler.Types.{
  trim_left_quotes, unmarshal_amount, Answer, Ticket, OrdersResponse, answers, answer_for,
  first_choice,
}
use ticketbutler_proxy.Aggregate.Sizes.{add_size, normalize_size}
use ticketbutler_proxy.Aggregate.Summary.{split_merch, group_of, summarise}
use ticketbutler_proxy.Aggregate.Sponsors.{sponsors}
use ticketbutler_proxy.Legacy.{Tallies, script}
use ticketbutler_proxy.Legacy.Runtime.{Js, Raw, Numbers, is_plain, IsPlain, IsJs, is_decimal, get}
use ticketbutler_proxy.Ticketbutler.Tags.{get_amount, get_float}
use ticketbutler_proxy.Json.Kind.{get_number}
use ticketbutler_proxy.Legacy.Amounts.{decode_amount, decode_rate, decoded_orders}
use ticketbutler_proxy.Legacy.Objects.{map_values}
use ticketbutler_proxy.Legacy.Answers.{count_tshirt}
use ticketbutler_proxy.Legacy.Parity.{script_options, shown}
use ticketbutler_proxy.Legacy.Sponsors.{script_sponsors}
use ticketbutler_proxy.Legacy.Sponsors.Parity.{company_names, script_sponsors-sponsors}

abbrev runtime : Js
runtime = record {
  to_lower_case = λ s. to_lower s;
  trim = trim_space;
  less = text_lt;
  inherited = λ key. text_eq key (codes "constructor") || text_eq key (codes "toString");
}

ascii_lower-plain : (c : ℕ) → is_plain c ≡ true → is_plain (ascii_lower c) ≡ true
unfolding is_plain ascii_lower
ascii_lower-plain c h = ground arith

to_lower-IsPlain : (s : Text) → IsPlain s → IsPlain (to_lower s)
unfolding to_lower
to_lower-IsPlain [] h = tt
to_lower-IsPlain (c ∷ s) (p, h) = (ascii_lower-plain c p, to_lower-IsPlain s h)

runtime-IsJs : IsJs runtime
runtime-IsJs = record {
  to_lower_case-eq = λ s h. refl;
  trim-eq = λ s h. refl;
  less-eq = λ s t h k. refl;
  lower_plain = to_lower-IsPlain;
}

-- A number that stands for NaN: no amount of the payloads is as high.
abbrev not_a_number : ℕ
not_a_number = 999999999

abbrev number_in : Text → ℕ
number_in s = elim (milli.parse s) [ none ↦ not_a_number | some x ↦ x ]

unfoldable parse_float : Raw → ℕ
parse_float (some (text s)) = number_in s
parse_float (some (number s)) = number_in s
parse_float _ = not_a_number

unfoldable one_plus : Raw → ℕ
one_plus (some (number s)) = milli.add (milli.of_int (pos 1)) (number_in s)
one_plus _ = not_a_number

abbrev numbers : Numbers ℕ
numbers = record { parse_float = parse_float; one_plus = one_plus }

abbrev shirt : String → Answer
shirt size = record {
  question_heading = codes " T-Shirt Size";
  question_uuid = [];
  variation = [];
  answer_value = [];
  answered_choices = record { choice_uuid = []; choice_heading = codes size } ∷ [];
}

abbrev ticket : String → String → String → String → List Answer → Ticket Raw
ticket name company price income given = record {
  id = pos 1;
  uuid = [];
  purchase_uuid = [];
  ticket_type_pk = pos 183067;
  ticket_type_name = codes name;
  first_name = [];
  last_name = [];
  full_name = [];
  email = [];
  company_name = codes company;
  price = some (text (codes price));
  price_total = some (text (codes income));
  checked_in = false;
  ticket_refund = false;
  answer_collection = some (record { uuid = []; answers = given });
}

abbrev order : List (Ticket Raw) → OrdersResponse Raw
order tickets = record {
  uuid = [];
  orders =
      record {
        uuid = [];
        order_id = [];
        currency = [];
        state = codes "PAID";
        date = [];
        vat_exempt = false;
        vat_rate = some (number (codes "250e-3"));
        news_letter = false;
        payment_method = [];
        address = record {
          first_name = [];
          last_name = [];
          email = [];
          phone = [];
          business_name = [];
        };
        discount = none;
        order_lines = [];
        tickets = tickets;
      }
      ∷ [];
}

abbrev payload : OrdersResponse Raw
payload = order (
    ticket "Hoodie Black - 2XL" "Zeta" "250e-2" "250e-2" (shirt " XL" ∷ [])
    ∷ ticket "Early Bird" " acme" "125e-2" "63e-2" (shirt "no shirt" ∷ [])
    ∷ ticket "Early Bird" "Acme " "125e-2" "0e-2" []
    ∷ [])

running : Unit {0}
unfolding script summarise get map_values lookup insert text_functions answer_for first_choice
    decode_amount decode_rate parse_float one_plus read_scaled get_amount get_float unmarshal_amount
    trim_left_quotes token get_number add_size normalize_size answers count_tshirt is_plain
    is_decimal split_merch group_of
running = tt

script_sponsors-sponsors_example :
    script_sponsors runtime payload ≡ company_names (sponsors payload script_options)
unfolding is_plain
script_sponsors-sponsors_example =
    script_sponsors-sponsors runtime payload runtime-IsJs (ground arith)

-- Two answers to the t-shirt question: the script counts both, the service the first.
abbrev asked_twice : OrdersResponse Raw
asked_twice = order (ticket "Early Bird" "" "125e-2" "125e-2" (shirt "S" ∷ shirt "M" ∷ []) ∷ [])

abbrev medium_of : Option (Tallies ℕ) → Option ℕ
medium_of none = none
medium_of (some t) = lookup (codes "medium") t.tshirt_sizes

script-counts_both :
    (medium_of (script runtime numbers asked_twice) ≡ some 1)
    × (medium_of (some (shown (summarise (decoded_orders asked_twice) script_options))) ≡ some 0)
unfolding running
script-counts_both = (refl, refl)

-- A ticket without a price: NaN is neither zero nor below a price, so that the script counts it under its name,
-- and the service among the free ones.
abbrev unpriced : OrdersResponse Raw
unpriced = order (ticket "Early Bird" "" "" "" [] ∷ [])

abbrev count_of : Text → Option (Tallies ℕ) → Option ℕ
count_of group none = none
count_of group (some t) = Option.map (λ row. row.count) (lookup group t.ticket_counts)

script-counts_by_name :
    (count_of (codes "Early Bird") (script runtime numbers unpriced) ≡ some 1)
    × (count_of
          (codes "Sponsors and other free tickets")
          (some (shown (summarise (decoded_orders unpriced) script_options)))
        ≡ some 1)
unfolding running
script-counts_by_name = (refl, refl)
