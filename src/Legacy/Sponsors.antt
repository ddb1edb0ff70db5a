-- ===== src/Legacy/Sponsors.antt =====
-- testdata/parity/legacy.js: the community sponsors of the script.
pub mod Parity
use ticketbutler_proxy.Common.{
  Bool, true, false, not, ◌&&◌, ◌||◌, List, [], ◌∷◌, ◌++◌, if◌then◌else◌,
}
use ticketbutler_proxy.Int.{ℤ, pos, eq_ℤ}
use ticketbutler_proxy.Text.{Text, text_eq}
use ticketbutler_proxy.Ticketbutler.Types.{Ticket, Order, OrdersResponse}
use ticketbutler_proxy.Legacy.Runtime.{Js}

-- `seen.has(key)`.
unfoldable pub has : List Text → Text → Bool
has [] key = false
has (k ∷ seen) key = text_eq k key || has seen key

-- `seen` and `sponsors`.
pub record Listed : Type 0 where
  pub seen : List Text
  pub sponsors : List Text

module _ (js : Js) where
  unfoldable pub script_key : Text → Text
  script_key company = js.to_lower_case (js.trim company)

  -- The body of the inner loop.
  unfoldable pub list_ticket : {F : Type 0} → Ticket F → Listed → Listed
  unfolding script_key has
  list_ticket ticket listed =
      if eq_ℤ ticket.ticket_type_pk (pos 183067)
      then (let key = script_key ticket.company_name in
          if not (text_eq key []) && not (has listed.seen key)
          then (record {
            seen = key ∷ listed.seen;
            sponsors = listed.sponsors ++ ticket.company_name ∷ [];
          })
          else listed)
      else listed

  unfoldable pub list_tickets : {F : Type 0} → List (Ticket F) → Listed → Listed
  unfolding list_ticket
  list_tickets [] listed = listed
  list_tickets (ticket ∷ tickets) listed = list_tickets tickets (list_ticket ticket listed)

  unfoldable pub list_orders : {F : Type 0} → List (Order F) → Listed → Listed
  unfolding list_tickets
  list_orders [] listed = listed
  list_orders (order ∷ orders) listed = list_orders orders (list_tickets order.tickets listed)

  -- `a.toLowerCase() < b.toLowerCase()`, and the sort by it; no two names that are listed are equal
  -- in lower case.
  unfoldable pub before : Text → Text → Bool
  before a b = js.less (js.to_lower_case a) (js.to_lower_case b)

  unfoldable pub insert_name : Text → List Text → List Text
  unfolding before
  insert_name a [] = a ∷ []
  insert_name a (b ∷ names) = if before a b then a ∷ b ∷ names else b ∷ insert_name a names

  unfoldable pub sort_names : List Text → List Text
  unfolding insert_name
  sort_names [] = []
  sort_names (a ∷ names) = insert_name a (sort_names names)

  -- `sponsors` at the end of the script.
  unfoldable pub script_sponsors : {F : Type 0} → OrdersResponse F → List Text
  unfolding list_orders sort_names
  script_sponsors resp =
      sort_names (list_orders resp.orders (record { seen = []; sponsors = [] })).sponsors
