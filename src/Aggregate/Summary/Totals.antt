-- ===== src/Aggregate/Summary/Totals.antt =====
-- internal/aggregate/summary.go: the totals of a summary: its orders and tickets, the orders by
-- state, the t-shirt sizes.
use ticketbutler_proxy.Common.{
  ◌+◌, ◌≡◌, refl, sym, ap, ◌∙◌, List, [], ◌∷◌, ◌++◌, length, length-append, arith, if◌then◌else◌,
}
use mathlib.Core.List.{append_assoc}
use ticketbutler_proxy.Float.{Float}
use ticketbutler_proxy.Dict.{lookup, index, index-insert}
use ticketbutler_proxy.Text.{Text, text_eq, CaseTable}
use ticketbutler_proxy.Text.Order.{text_eq_iff}
use ticketbutler_proxy.Ticketbutler.Types.{Ticket, Order, OrdersResponse}
use ticketbutler_proxy.Aggregate.Sizes.Tally.{add_sizes, tally, add_sizes-eq-tally_from}
use ticketbutler_proxy.Aggregate.Summary.{
  Summary, empty_summary, Options, add_tshirt, count_ticket, count_tickets, count_order,
  count_orders, summarise,
}
use ticketbutler_proxy.Aggregate.Summary.Lines.{
  all_tickets, orders_in_state, tshirt_size, tshirt_answers,
}

module _ {F : Type 0} ⦃case : CaseTable⦄ where
  pub tshirt_answers-append :
      (xs ys : List (Ticket F)) → tshirt_answers (xs ++ ys) ≡ tshirt_answers xs ++ tshirt_answers ys
  unfolding tshirt_answers
  tshirt_answers-append [] ys = refl
  tshirt_answers-append (x ∷ xs) ys = rw (tshirt_answers-append xs ys) (simp append_assoc)

module _ {F : Type 0} ⦃float : Float F⦄ ⦃case : CaseTable⦄ (opts : Options) where
  orders-count_tickets :
      (order : Order F) (tickets : List (Ticket F)) (s : Summary F)
      → (count_tickets opts order tickets s).counts.orders ≡ s.counts.orders
  unfolding count_tickets count_ticket
  orders-count_tickets order [] s = refl
  orders-count_tickets order (ticket ∷ tickets) s =
      orders-count_tickets order tickets (count_ticket opts order ticket s)

  tickets-count_tickets :
      (order : Order F) (tickets : List (Ticket F)) (s : Summary F)
      → (count_tickets opts order tickets s).counts.tickets ≡ s.counts.tickets + length tickets
  unfolding count_tickets count_ticket
  tickets-count_tickets order [] s = omega arith
  tickets-count_tickets order (ticket ∷ tickets) s =
      omega (arith, tickets-count_tickets order tickets (count_ticket opts order ticket s))

  states-count_tickets :
      (order : Order F) (tickets : List (Ticket F)) (s : Summary F)
      → (count_tickets opts order tickets s).orders_by_state ≡ s.orders_by_state
  unfolding count_tickets count_ticket
  states-count_tickets order [] s = refl
  states-count_tickets order (ticket ∷ tickets) s =
      states-count_tickets order tickets (count_ticket opts order ticket s)

  orders-count_orders :
      (orders : List (Order F)) (s : Summary F)
      → (count_orders opts orders s).counts.orders ≡ s.counts.orders + length orders
  unfolding count_orders count_order
  orders-count_orders [] s = omega arith
  orders-count_orders (order ∷ orders) s = omega (
    arith,
    orders-count_orders orders (count_order opts order s),
    orders-count_tickets order order.tickets,
  )

  tickets-count_orders :
      (orders : List (Order F)) (s : Summary F)
      → (count_orders opts orders s).counts.tickets ≡ s.counts.tickets + length (all_tickets orders)
  unfolding count_orders count_order all_tickets
  tickets-count_orders [] s = omega arith
  tickets-count_orders (order ∷ orders) s = omega (
    arith,
    tickets-count_orders orders (count_order opts order s),
    tickets-count_tickets order order.tickets,
    length-append order.tickets (all_tickets orders),
  )

  index-states-count_order :
      (state : Text) (order : Order F) (s : Summary F)
      → index 0 state (count_order opts order s).orders_by_state ≡ (
          if text_eq order.state state
          then index 0 state s.orders_by_state + 1
          else index 0 state s.orders_by_state)
  unfolding count_order
  index-states-count_order state order s =
      rw (states-count_tickets order order.tickets _, index-insert)
        (ground (arith, text_eq_iff order.state state))

  index-states-count_orders :
      (state : Text) (orders : List (Order F)) (s : Summary F)
      → index 0 state (count_orders opts orders s).orders_by_state
        ≡ index 0 state s.orders_by_state + orders_in_state state orders
  unfolding count_orders orders_in_state
  index-states-count_orders state [] s = omega arith
  index-states-count_orders state (order ∷ orders) s = ground (
    arith,
    index-states-count_orders state orders (count_order opts order s),
    index-states-count_order state order s,
  )

  -- The t-shirt sizes are those of all tickets, added one after the other.
  tshirts-count_ticket :
      (order : Order F) (ticket : Ticket F) (s : Summary F) (sizes : List Text)
      → add_sizes (count_ticket opts order ticket s).tshirt_sizes sizes
        ≡ add_sizes s.tshirt_sizes (tshirt_size ticket ++ sizes)
  unfolding count_ticket add_tshirt tshirt_size add_sizes
  tshirts-count_ticket order ticket s sizes = ground arith

  tshirts-count_tickets :
      (order : Order F) (tickets : List (Ticket F)) (s : Summary F) (sizes : List Text)
      → add_sizes (count_tickets opts order tickets s).tshirt_sizes sizes
        ≡ add_sizes s.tshirt_sizes (tshirt_answers tickets ++ sizes)
  unfolding count_tickets tshirt_answers
  tshirts-count_tickets order [] s sizes = refl
  tshirts-count_tickets order (ticket ∷ tickets) s sizes =
      tshirts-count_tickets order tickets (count_ticket opts order ticket s) sizes
      ∙ (tshirts-count_ticket order ticket s (tshirt_answers tickets ++ sizes) ∙ simp append_assoc)

  tshirts-count_order :
      (order : Order F) (s : Summary F) (sizes : List Text)
      → add_sizes (count_order opts order s).tshirt_sizes sizes
        ≡ add_sizes s.tshirt_sizes (tshirt_answers order.tickets ++ sizes)
  unfolding count_order
  tshirts-count_order order s sizes = tshirts-count_tickets order order.tickets _ sizes

  tshirts-count_orders :
      (orders : List (Order F)) (s : Summary F)
      → (count_orders opts orders s).tshirt_sizes
        ≡ add_sizes s.tshirt_sizes (tshirt_answers (all_tickets orders))
  unfolding count_orders all_tickets
  tshirts-count_orders [] s = unfold tshirt_answers add_sizes in refl
  tshirts-count_orders (order ∷ orders) s =
      tshirts-count_orders orders (count_order opts order s)
      ∙ (tshirts-count_order order s (tshirt_answers (all_tickets orders))
          ∙ ap (add_sizes s.tshirt_sizes) (sym (tshirt_answers-append order.tickets _)))

module _ {F : Type 0} ⦃float : Float F⦄ ⦃case : CaseTable⦄ (resp : OrdersResponse F)
    (opts : Options) where
  -- The summary counts the payload's orders and all their tickets.
  pub summarise-counts :
      (summarise resp opts).counts
      ≡ record { orders = length resp.orders; tickets = length (all_tickets resp.orders) }
  unfolding summarise
  summarise-counts = ground (
    arith,
    orders-count_orders opts resp.orders (empty_summary resp.uuid),
    tickets-count_orders opts resp.orders (empty_summary resp.uuid),
  )

  -- For each state, the summary counts the orders that are in it.
  pub summarise-orders_by_state :
      (state : Text)
      → index 0 state (summarise resp opts).orders_by_state ≡ orders_in_state state resp.orders
  unfolding summarise lookup
  summarise-orders_by_state state =
      index-states-count_orders opts state resp.orders (empty_summary resp.uuid) ∙ omega arith

  -- Each field of the t-shirt tally is the number of tickets whose first answer to the t-shirt
  -- question is, once normalised, the field's size.
  pub summarise-tshirt_sizes :
      (summarise resp opts).tshirt_sizes ≡ tally (tshirt_answers (all_tickets resp.orders))
  unfolding summarise
  summarise-tshirt_sizes =
      tshirts-count_orders opts resp.orders (empty_summary resp.uuid)
      ∙ add_sizes-eq-tally_from _ (tshirt_answers (all_tickets resp.orders))
