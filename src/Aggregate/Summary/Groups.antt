-- ===== src/Aggregate/Summary/Groups.antt =====
-- internal/aggregate/summary.go: the rows of the ticket groups.
use ticketbutler_proxy.Common.{
  ◌+◌, ◌≡◌, refl, sym, ◌∙◌, Option, none, some, List, [], ◌∷◌, ◌++◌, foldl, length, arith,
  if◌then◌else◌,
}
use ticketbutler_proxy.Float.{Float}
use ticketbutler_proxy.Dict.{Dict, lookup, lookup-insert}
use ticketbutler_proxy.Text.{Text, text_eq, CaseTable}
use ticketbutler_proxy.Text.Order.{text_eq_iff}
use ticketbutler_proxy.Ticketbutler.Types.{Ticket, Order, OrdersResponse}
use ticketbutler_proxy.Aggregate.Summary.{
  TicketGroup, Summary, empty_summary, Options, group_of, income_of, add_row, count_ticket,
  count_tickets, count_order, count_orders, summarise,
}
use ticketbutler_proxy.Aggregate.Summary.Lines.{incomes_of, incomes, row_of}

module _ {F : Type 0} ⦃float : Float F⦄ where
  -- A row that may be missing, with one more income.
  abbrev pay : Option (TicketGroup F) → F → TicketGroup F
  pay none x = record { count = 0 + 1; income_ex_vat = float.add float.zero_float x }
  pay (some row) x = record { count = row.count + 1; income_ex_vat = float.add row.income_ex_vat x }

  accumulate : Option (TicketGroup F) → List F → Option (TicketGroup F)
  accumulate row [] = row
  accumulate row (x ∷ xs) = accumulate (some (pay row x)) xs

  accumulate-append :
      (row : Option (TicketGroup F)) (xs ys : List F)
      → accumulate row (xs ++ ys) ≡ accumulate (accumulate row xs) ys
  unfolding accumulate
  accumulate-append row [] ys = refl
  accumulate-append row (x ∷ xs) ys = accumulate-append (some (pay row x)) xs ys

  accumulate-some :
      (row : TicketGroup F) (xs : List F)
      → accumulate (some row) xs
        ≡ some (record {
          count = row.count + length xs;
          income_ex_vat = foldl float.add row.income_ex_vat xs;
        })
  unfolding accumulate
  accumulate-some row [] = ground arith
  accumulate-some row (x ∷ xs) = accumulate-some (pay (some row) x) xs ∙ ground arith

  accumulate-none : (xs : List F) → accumulate none xs ≡ row_of xs
  unfolding accumulate
  accumulate-none [] = refl
  accumulate-none (x ∷ xs) = accumulate-some (pay none x) xs ∙ ground arith

  lookup-add_row :
      (g h : Text) (x : F) (groups : Dict (TicketGroup F))
      → lookup g (add_row h x groups)
        ≡ (if text_eq h g then some (pay (lookup h groups) x) else lookup g groups)
  unfolding add_row
  lookup-add_row g h x groups = rw lookup-insert (ground arith)

module _ {F : Type 0} ⦃float : Float F⦄ ⦃case : CaseTable⦄ (opts : Options) (group : Text) where
  groups-count_ticket :
      (order : Order F) (ticket : Ticket F) (s : Summary F)
      → (count_ticket opts order ticket s).ticket_groups
        ≡ add_row (group_of opts ticket) (income_of order ticket) s.ticket_groups
  unfolding count_ticket
  groups-count_ticket order ticket s = refl

  lookup-count_tickets :
      (order : Order F) (tickets : List (Ticket F)) (s : Summary F)
      → lookup group (count_tickets opts order tickets s).ticket_groups
        ≡ accumulate (lookup group s.ticket_groups) (incomes_of opts group order tickets)
  unfolding count_tickets incomes_of accumulate
  lookup-count_tickets order [] s = refl
  lookup-count_tickets order (ticket ∷ tickets) s =
      lookup-count_tickets order tickets (count_ticket opts order ticket s)
      ∙ rw (groups-count_ticket order ticket s, lookup-add_row)
          (ground (arith, text_eq_iff (group_of opts ticket) group))

  lookup-count_order :
      (order : Order F) (s : Summary F)
      → lookup group (count_order opts order s).ticket_groups
        ≡ accumulate (lookup group s.ticket_groups) (incomes_of opts group order order.tickets)
  unfolding count_order
  lookup-count_order order s = lookup-count_tickets order order.tickets _

  lookup-count_orders :
      (orders : List (Order F)) (s : Summary F)
      → lookup group (count_orders opts orders s).ticket_groups
        ≡ accumulate (lookup group s.ticket_groups) (incomes opts group orders)
  unfolding count_orders incomes accumulate
  lookup-count_orders [] s = refl
  lookup-count_orders (order ∷ orders) s =
      lookup-count_orders orders (count_order opts order s)
      ∙ rw (lookup-count_order order s) (
          sym (
            accumulate-append (lookup group s.ticket_groups)
              (incomes_of opts group order order.tickets) (incomes opts group orders)))

-- The row of a group is missing where no ticket is in the group; otherwise it counts the group's
-- tickets, and its income is their incomes added, in the order of the payload, from 0 on.
pub lookup-ticket_groups :
    {F : Type 0} ⦃float : Float F⦄ ⦃case : CaseTable⦄ (resp : OrdersResponse F) (opts : Options)
    (group : Text)
    → lookup group (summarise resp opts).ticket_groups ≡ row_of (incomes opts group resp.orders)
unfolding summarise lookup
lookup-ticket_groups resp opts group =
    lookup-count_orders opts group resp.orders (empty_summary resp.uuid)
    ∙ accumulate-none (incomes opts group resp.orders)
