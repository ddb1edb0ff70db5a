-- ===== src/Aggregate/Summary/Lines.antt =====
-- The independent description of what a summary collects: for each map, the list of the tickets'
-- contributions to one key, in the order of the payload.
use ticketbutler_proxy.Common.{
  ℕ, ◌+◌, Bool, Option, none, some, List, [], ◌∷◌, ◌++◌, not, ◌&&◌, foldl, length, if◌then◌else◌,
}
use ticketbutler_proxy.Float.{Float}
use ticketbutler_proxy.Text.{Text, text_eq, CaseTable}
use ticketbutler_proxy.Ticketbutler.Types.{Ticket, Order, answer_for, first_choice}
use ticketbutler_proxy.Aggregate.Sizes.{SizeCounts, normalize_size}
use ticketbutler_proxy.Aggregate.Sizes.Tally.{tally}
use ticketbutler_proxy.Aggregate.Summary.{
  TicketGroup, Options, tshirt_question, split_merch, group_of, income_of,
}

-- Every ticket of the payload.
unfoldable pub all_tickets : {F : Type 0} → List (Order F) → List (Ticket F)
all_tickets [] = []
all_tickets (order ∷ orders) = order.tickets ++ all_tickets orders

-- How many orders are in a state.
unfoldable pub orders_in_state : {F : Type 0} → Text → List (Order F) → ℕ
orders_in_state state [] = 0
orders_in_state state (order ∷ orders) =
    if text_eq order.state state
    then orders_in_state state orders + 1
    else orders_in_state state orders

-- The size of a ticket that answers the question, as a list of none or one.
unfoldable pub tshirt_size : {F : Type 0} ⦃case : CaseTable⦄ → Ticket F → List Text
tshirt_size ticket = elim (answer_for ticket tshirt_question) [
  | none ↦ []
  | some answer ↦ normalize_size (first_choice answer) ∷ []
]

unfoldable pub tshirt_answers : {F : Type 0} ⦃case : CaseTable⦄ → List (Ticket F) → List Text
unfolding tshirt_size
tshirt_answers [] = []
tshirt_answers (ticket ∷ tickets) = tshirt_size ticket ++ tshirt_answers tickets

-- What a ticket's name adds to a product's sizes.
unfoldable pub size_in : Text × Text × Bool → Text → List Text
size_in (name, size, is_merch) product =
    if is_merch && (not (text_eq size []) && text_eq name product) then size ∷ [] else []

module _ {F : Type 0} ⦃float : Float F⦄ ⦃case : CaseTable⦄ (opts : Options) where
  -- The incomes of an order's tickets in a group.
  unfoldable pub incomes_of : Text → Order F → List (Ticket F) → List F
  incomes_of group order [] = []
  incomes_of group order (ticket ∷ tickets) =
      if text_eq (group_of opts ticket) group
      then income_of order ticket ∷ incomes_of group order tickets
      else incomes_of group order tickets

  unfoldable pub incomes : Text → List (Order F) → List F
  incomes group [] = []
  incomes group (order ∷ orders) = incomes_of group order order.tickets ++ incomes group orders

module _ {F : Type 0} ⦃float : Float F⦄ where
  -- The row of a group with these incomes: their number, and their sum from the left.
  abbrev pub row_of : List F → Option (TicketGroup F)
  row_of [] = none
  row_of (x ∷ xs) = some (record {
    count = length (x ∷ xs);
    income_ex_vat = foldl float.add float.zero_float (x ∷ xs);
  })

module _ {F : Type 0} ⦃case : CaseTable⦄ (opts : Options) where
  -- The sizes of the merchandise tickets of a product.
  unfoldable pub product_sizes : Text → List (Ticket F) → List Text
  unfolding size_in
  product_sizes product [] = []
  product_sizes product (ticket ∷ tickets) =
      size_in (split_merch ticket.ticket_type_name opts.merch_name_patterns) product
      ++ product_sizes product tickets

-- The tally of a product with these sizes.
abbrev pub tally_of : List Text → Option SizeCounts
tally_of [] = none
tally_of (x ∷ xs) = some (tally (x ∷ xs))
