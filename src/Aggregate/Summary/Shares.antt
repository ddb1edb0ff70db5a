-- ===== src/Aggregate/Summary/Shares.antt =====
-- internal/aggregate/summary.go: the counts of the ticket groups, taken together.
use ticketbutler_proxy.Common.{
  ℕ, ◌+◌, ◌≡◌, refl, ap, ◌∙◌, Option, none, some, List, [], ◌∷◌, arith, length,
}
use ticketbutler_proxy.Float.{Float}
use ticketbutler_proxy.Dict.{Dict, lookup, insert, index}
use ticketbutler_proxy.Text.{Text, CaseTable}
use ticketbutler_proxy.Ticketbutler.Types.{Ticket, Order, OrdersResponse}
use ticketbutler_proxy.Aggregate.Summary.{
  TicketGroup, Summary, Counts, Options, empty_summary, group_of, income_of, add_row, count_ticket,
  count_tickets, count_order, count_orders, summarise,
}
use ticketbutler_proxy.Aggregate.Summary.Lines.{all_tickets}
use ticketbutler_proxy.Aggregate.Summary.Totals.{summarise-counts}

-- The tickets that the rows count together.
unfoldable pub sum_counts : {F : Type 0} → Dict (TicketGroup F) → ℕ
sum_counts [] = 0
sum_counts ((g, row) ∷ groups) = row.count + sum_counts groups

count_at : {F : Type 0} → Option (TicketGroup F) → ℕ
count_at none = 0
count_at (some row) = row.count

module _ {F : Type 0} where
  sum_counts-insert :
      (g : Text) (row : TicketGroup F) (groups : Dict (TicketGroup F))
      → sum_counts (insert g row groups) + count_at (lookup g groups)
        ≡ sum_counts groups + row.count
  unfolding sum_counts insert lookup count_at
  sum_counts-insert g row [] = omega arith
  sum_counts-insert g row ((h, old) ∷ groups) = ground (arith, sum_counts-insert g row groups)

module _ {F : Type 0} ⦃float : Float F⦄ where
  sum_counts-add_row :
      (g : Text) (income : F) (groups : Dict (TicketGroup F))
      → sum_counts (add_row g income groups) ≡ sum_counts groups + 1
  unfolding add_row count_at
  sum_counts-add_row g income groups =
      let row : TicketGroup F =
        index (record { count = 0; income_ex_vat = float.zero_float }) g groups in
      let paid : TicketGroup F = record {
        count = row.count + 1;
        income_ex_vat = float.add row.income_ex_vat income;
      } in
      ground (arith, sum_counts-insert g paid groups)

module _ {F : Type 0} ⦃float : Float F⦄ ⦃case : CaseTable⦄ (opts : Options) where
  -- What a row counts and what `counts` counts, before and after.
  abbrev Shares : Summary F → Type 0
  Shares s = sum_counts s.ticket_groups ≡ s.counts.tickets

  count_ticket-Shares :
      (order : Order F) (ticket : Ticket F) (s : Summary F)
      → Shares s
      → Shares (count_ticket opts order ticket s)
  unfolding count_ticket
  count_ticket-Shares order ticket s h =
      omega
        (arith, sum_counts-add_row (group_of opts ticket) (income_of order ticket) s.ticket_groups)

  count_tickets-Shares :
      (order : Order F) (tickets : List (Ticket F)) (s : Summary F)
      → Shares s
      → Shares (count_tickets opts order tickets s)
  unfolding count_tickets
  count_tickets-Shares order [] s h = h
  count_tickets-Shares order (ticket ∷ tickets) s h =
      count_tickets-Shares order tickets _ (count_ticket-Shares order ticket s h)

  count_orders-Shares :
      (orders : List (Order F)) (s : Summary F) → Shares s → Shares (count_orders opts orders s)
  unfolding count_orders count_order
  count_orders-Shares [] s h = h
  count_orders-Shares (order ∷ orders) s h =
      count_orders-Shares orders _ (count_tickets-Shares order order.tickets _ h)

-- The rows of all ticket groups together count every ticket of the payload once.
pub sum_counts-summarise :
    {F : Type 0} ⦃float : Float F⦄ ⦃case : CaseTable⦄ (resp : OrdersResponse F) (opts : Options)
    → sum_counts (summarise resp opts).ticket_groups ≡ length (all_tickets resp.orders)
unfolding summarise sum_counts
sum_counts-summarise resp opts =
    count_orders-Shares opts resp.orders (empty_summary resp.uuid) refl
    ∙ ap (λ (c : Counts). c.tickets) (summarise-counts resp opts)
