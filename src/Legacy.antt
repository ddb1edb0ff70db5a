-- ===== src/Legacy.antt =====
-- testdata/parity/legacy.js: the aggregation of the Apps Script that internal/aggregate is a port
-- of. It reads the payload that the service reads, with the prices and the VAT rate as they stand in the
-- JSON; `none` means that the script took an inherited property, such as `constructor`, for a row of its
-- own.
pub mod Runtime
pub mod Plain
pub mod Sizes
pub mod Objects
pub mod Names
pub mod Answers
pub mod Amounts
pub mod Parity
pub mod Sponsors
mod Tests
use ticketbutler_proxy.Common.{
  ℕ, ◌+◌, Bool, true, false, not, ◌&&◌, ◌||◌, Option, none, some, List, [], ◌∷◌, ◌++◌,
  if◌then◌else◌,
}
use ticketbutler_proxy.Int.{ℤ, pos, eq_ℤ}
use ticketbutler_proxy.Float.{Float}
use ticketbutler_proxy.Dict.{Dict, insert}
use ticketbutler_proxy.Text.{Text, codes, text_eq, contains, split, join}
use ticketbutler_proxy.Ticketbutler.Types.{Choice, Answer, Ticket, Order, OrdersResponse}
use ticketbutler_proxy.Aggregate.Summary.{all_but_last, last_part}
use Runtime.{Js, Raw, Numbers, Property, undefined, own, proto, get}

infixl 5 ◌>>=◌
abbrev pub ◌>>=◌ {ℓ κ} : {A : Type ℓ} {B : Type κ} → Option A → (A → Option B) → Option B
none >>= f = none
some a >>= f = f a

-- The chain of tests of `normalizeSize`.
unfoldable pub rename_size : Text → Text
rename_size size =
    if text_eq size (codes "s") || text_eq size (codes "small")
    then codes "small"
    else if text_eq size (codes "m") || text_eq size (codes "medium")
    then codes "medium"
    else if text_eq size (codes "l") || text_eq size (codes "large")
    then codes "large"
    else if text_eq size (codes "xl") || text_eq size (codes "extra large")
    then codes "xl"
    else if text_eq size (codes "2xl") || text_eq size (codes "xxl")
    then codes "2xl"
    else if text_eq size (codes "3xl") || text_eq size (codes "xxxl")
    then codes "3xl"
    else size

abbrev pub no_counts : Dict ℕ
no_counts =
    (codes "small", 0)
    ∷ (codes "medium", 0)
    ∷ (codes "large", 0)
    ∷ (codes "xl", 0)
    ∷ (codes "2xl", 0)
    ∷ (codes "3xl", 0)
    ∷ []

-- A row of `ticketCounts`.
pub record Row (F : Type 0) : Type 0 where
  pub count : ℕ
  pub income : F

-- The variables of the loop.
pub record Tallies (F : Type 0) : Type 0 where
  pub ticket_counts : Dict (Row F)
  pub tshirt_sizes : Dict ℕ
  pub merch_counts : Dict (Dict ℕ)

abbrev pub no_tallies : {F : Type 0} → Tallies F
no_tallies = record { ticket_counts = []; tshirt_sizes = no_counts; merch_counts = [] }

-- `if (!rows[key]) rows[key] = row`, with the row that then stands there: every row is an object.
unfoldable pub row_or {ℓ} : {V : Type ℓ} → V → Property V → Option V
row_or row undefined = some row
row_or row (own present) = some present
row_or row proto = none

module _ {F : Type 0} ⦃float : Float F⦄ (numbers : Numbers F) where
  unfoldable pub final_group : Ticket Raw → Text → Text
  final_group ticket group =
      let income = numbers.parse_float ticket.price_total in
      let price = numbers.parse_float ticket.price in
      if float.eq income float.zero_float
      then codes "Sponsors and other free tickets"
      else if float.lt income price
      then codes "Discounted"
      else group

  unfoldable pub income_without_vat : Order Raw → Ticket Raw → F
  income_without_vat order ticket =
      let income = numbers.parse_float ticket.price_total in
      if not order.vat_exempt then float.div income (numbers.one_plus order.vat_rate) else income

module _ (js : Js) where
  unfoldable pub script_size : Text → Text
  unfolding rename_size
  script_size size = if text_eq size [] then [] else rename_size (js.to_lower_case (js.trim size))

  -- `if (counts[size] !== undefined) counts[size] += 1`.
  unfoldable pub bump : Text → Dict ℕ → Option (Dict ℕ)
  bump size counts = elim (get js size counts) [
    | undefined ↦ some counts
    | own n ↦ some (insert size (n + 1) counts)
    | proto ↦ none
  ]

  -- `parsedMerchType` and `merchSize` of a name that holds "hoodie", from its parts.
  unfoldable pub read_parts : Text → List Text → Text × Option Text
  unfolding all_but_last last_part
  read_parts group (part ∷ next ∷ parts) = (
    js.trim (join (all_but_last (part ∷ next ∷ parts)) (codes " - ")),
    some (script_size (last_part (part ∷ next ∷ parts))),
  )
  read_parts group _ = (group, none)

  -- `parsedMerchType`, `merchSize` and `isMerch`.
  unfoldable pub read_name : Text → Text × Option Text × Bool
  unfolding read_parts
  read_name group =
      if contains (js.to_lower_case group) (codes "hoodie")
      then (let parsed = read_parts group (split group (codes " - ")) in (parsed.0, parsed.1, true))
      else (group, none, false)

  -- The row of a product's sizes, made where it is missing, counts the size in place.
  unfoldable pub count_size : Text → Text → Dict (Dict ℕ) → Option (Dict (Dict ℕ))
  unfolding row_or bump
  count_size product size merch = do
    counts ← row_or no_counts (get js product merch)
    counts' ← bump size counts
    some (insert product counts' merch)

  -- `if (isMerch && merchSize)`, which is false of null and of an empty text.
  unfoldable pub count_merch : Text × Option Text × Bool → Dict (Dict ℕ) → Option (Dict (Dict ℕ))
  unfolding count_size
  count_merch (product, none, is_merch) merch = some merch
  count_merch (product, some size, is_merch) merch =
      if is_merch && not (text_eq size []) then count_size product size merch else some merch

  -- `answered_choices[0]`, where there is one.
  unfoldable pub count_choice : List Choice → Dict ℕ → Option (Dict ℕ)
  unfolding bump script_size
  count_choice [] sizes = some sizes
  count_choice (choice ∷ choices) sizes = bump (script_size choice.choice_heading) sizes

  unfoldable pub count_answer : Answer → Dict ℕ → Option (Dict ℕ)
  unfolding count_choice
  count_answer answer sizes =
      if not (text_eq answer.question_heading [])
        && text_eq (js.trim answer.question_heading) (codes "T-Shirt Size")
      then count_choice answer.answered_choices sizes
      else some sizes

  unfoldable pub count_answers : List Answer → Dict ℕ → Option (Dict ℕ)
  unfolding count_answer
  count_answers [] sizes = some sizes
  count_answers (answer ∷ answers) sizes = count_answer answer sizes >>= count_answers answers

  unfoldable pub count_collection : {F : Type 0} → Ticket F → Dict ℕ → Option (Dict ℕ)
  unfolding count_answers
  count_collection ticket sizes = elim ticket.answer_collection [
    | none ↦ some sizes
    | some collection ↦ count_answers collection.answers sizes
  ]

  module _ {F : Type 0} ⦃float : Float F⦄ where
    -- The row of a group, made where it is missing, counts the ticket in place.
    unfoldable pub pay_row : Text → F → Dict (Row F) → Option (Dict (Row F))
    unfolding row_or
    pay_row group income rows = do
      row ← row_or (record { count = 0; income = float.zero_float }) (get js group rows)
      some (
          insert group (record { count = row.count + 1; income = float.add row.income income })
            rows)

    -- The body of the inner loop.
    unfoldable pub run_ticket : Numbers F → Order Raw → Ticket Raw → Tallies F → Option (Tallies F)
    unfolding read_name count_merch count_collection final_group income_without_vat pay_row
    run_ticket numbers order ticket tallies =
        let named = read_name ticket.ticket_type_name in
        do
          merch ← count_merch named tallies.merch_counts
          sizes ← count_collection ticket tallies.tshirt_sizes
          rows ←
              pay_row (final_group numbers ticket named.0) (income_without_vat numbers order ticket)
                tallies.ticket_counts
          some (record { ticket_counts = rows; tshirt_sizes = sizes; merch_counts = merch })

    unfoldable pub run_tickets :
        Numbers F → Order Raw → List (Ticket Raw) → Tallies F → Option (Tallies F)
    unfolding run_ticket
    run_tickets numbers order [] tallies = some tallies
    run_tickets numbers order (ticket ∷ tickets) tallies =
        run_ticket numbers order ticket tallies >>= run_tickets numbers order tickets

    unfoldable pub run_orders : Numbers F → List (Order Raw) → Tallies F → Option (Tallies F)
    unfolding run_tickets
    run_orders numbers [] tallies = some tallies
    run_orders numbers (order ∷ orders) tallies =
        run_tickets numbers order order.tickets tallies >>= run_orders numbers orders

    -- `ticketCounts`, `tshirtSizes` and `merchCounts` at the end of the script.
    unfoldable pub script : Numbers F → OrdersResponse Raw → Option (Tallies F)
    unfolding run_orders
    script numbers resp = run_orders numbers resp.orders no_tallies
