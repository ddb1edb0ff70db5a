-- ===== src/Aggregate/Sponsors.antt =====
-- internal/aggregate/sponsors.go: the community sponsors of a payload. A nil slice is the empty
-- list, and `sort.Slice` is an insertion sort; Sponsors/Collect compares it with any other sort.
pub mod Find
pub mod Sorted
pub mod Collect
pub mod Unique
use ticketbutler_proxy.Common.{Bool, true, false, ◌||◌, List, [], ◌∷◌, ◌++◌, if◌then◌else◌}
use ticketbutler_proxy.Int.{ℤ, eq_ℤ}
use ticketbutler_proxy.Text.{Text, text_eq, text_lt, trim_space, CaseTable, to_lower}
use ticketbutler_proxy.Ticketbutler.Types.{Ticket, Order, OrdersResponse}
use ticketbutler_proxy.Aggregate.Summary.{Options}

pub record Sponsor : Type 0 where
  pub company_name : Text
  pub email : Text
  pub full_name : Text
  pub ticket_type_pk : ℤ
  pub ticket_type_name : Text

unfoldable pub sponsor_of : {F : Type 0} → Ticket F → Sponsor
sponsor_of ticket = record {
  company_name = ticket.company_name;
  email = ticket.email;
  full_name = ticket.full_name;
  ticket_type_pk = ticket.ticket_type_pk;
  ticket_type_name = ticket.ticket_type_name;
}

-- The map `wanted`: `wanted[pk]`.
unfoldable pub is_wanted : List ℤ → ℤ → Bool
is_wanted [] pk = false
is_wanted (wanted ∷ pks) pk = eq_ℤ wanted pk || is_wanted pks pk

-- The map `seen`: `seen[key]`.
unfoldable pub is_seen : List Text → Text → Bool
is_seen [] key = false
is_seen (s ∷ seen) key = text_eq s key || is_seen seen key

-- A company's key, `strings.ToLower(strings.TrimSpace(name))`.
unfoldable pub company_key : ⦃case : CaseTable⦄ → Text → Text
company_key name = to_lower (trim_space name)

-- The variables of the loop.
pub record Found : Type 0 where
  pub seen : List Text
  pub sponsors : List Sponsor

module _ {F : Type 0} ⦃case : CaseTable⦄ (pks : List ℤ) where
  -- The body of the loop over the tickets.
  unfoldable pub visit : Ticket F → Found → Found
  visit ticket found =
      let key = company_key ticket.company_name in
      if is_wanted pks ticket.ticket_type_pk
      then (if text_eq key [] || is_seen found.seen key then found else record {
        seen = key ∷ found.seen;
        sponsors = found.sponsors ++ sponsor_of ticket ∷ [];
      })
      else found

  unfoldable pub visit_tickets : List (Ticket F) → Found → Found
  visit_tickets [] found = found
  visit_tickets (ticket ∷ tickets) found = visit_tickets tickets (visit ticket found)

  unfoldable pub visit_orders : List (Order F) → Found → Found
  visit_orders [] found = found
  visit_orders (order ∷ orders) found = visit_orders orders (visit_tickets order.tickets found)

-- The order of `sort.Slice`.
unfoldable pub less : ⦃case : CaseTable⦄ → Sponsor → Sponsor → Bool
less a b = text_lt (to_lower a.company_name) (to_lower b.company_name)

unfoldable pub insert_sorted : ⦃case : CaseTable⦄ → Sponsor → List Sponsor → List Sponsor
insert_sorted s [] = s ∷ []
insert_sorted s (t ∷ ts) = if less s t then s ∷ t ∷ ts else t ∷ insert_sorted s ts

unfoldable pub sort : ⦃case : CaseTable⦄ → List Sponsor → List Sponsor
unfolding insert_sorted less
sort [] = []
sort (s ∷ ss) = insert_sorted s (sort ss)

-- The body of `Sponsors`, which returns early where no ticket type is configured.
unfoldable pub sponsors_of :
    {F : Type 0} ⦃case : CaseTable⦄ → List ℤ → List (Order F) → List Sponsor
sponsors_of [] orders = []
sponsors_of (pk ∷ pks) orders =
    sort (visit_orders (pk ∷ pks) orders (record { seen = []; sponsors = [] })).sponsors

unfoldable pub sponsors :
    {F : Type 0} ⦃case : CaseTable⦄ → OrdersResponse F → Options → List Sponsor
unfolding sponsors_of
sponsors resp opts = sponsors_of opts.sponsor_ticket_type_pks resp.orders
