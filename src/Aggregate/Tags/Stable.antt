-- ===== src/Aggregate/Tags/Stable.antt =====
-- The JSON of a summary, before and after it has been decoded.
use ticketbutler_proxy.Common.{◌≡◌, Bool, ◌&&◌, not, List, [], ◌∷◌, if_both}
use ticketbutler_proxy.Float.{Float}
use ticketbutler_proxy.Text.{Text, text_eq, CaseTable}
use ticketbutler_proxy.Dict.{Dict}
use ticketbutler_proxy.Json.Kind.{count_kind}
use ticketbutler_proxy.Json.Struct.{put_fields, put_struct}
use ticketbutler_proxy.Json.Map.Sorted.{IsDistinct, insert-IsDistinct, put_map-restore_map}
use ticketbutler_proxy.Ticketbutler.Types.{Ticket, Order, OrdersResponse}
use ticketbutler_proxy.Aggregate.Sizes.{SizeCounts}
use ticketbutler_proxy.Aggregate.Summary.{
  Summary, Options, empty_summary, add_row, add_merch, count_ticket, count_tickets, count_order,
  count_orders, summarise,
}
use ticketbutler_proxy.Aggregate.Tags.{
  summary_fields, summary_kind, ticket_group_kind, size_counts_kind,
}
use ticketbutler_proxy.Aggregate.Tags.Restore.{restore_summary}

-- No key stands twice in a map of a summary.
pub record HasKeys {F : Type 0} (s : Summary F) : Type 0 where
  pub states : IsDistinct s.orders_by_state
  pub groups : IsDistinct s.ticket_groups
  pub merch : IsDistinct s.merch

add_merch-IsDistinct :
    (split : Text × Text × Bool) (merch : Dict SizeCounts)
    → IsDistinct merch
    → IsDistinct (add_merch split merch)
unfolding add_merch
add_merch-IsDistinct (name, size, is_merch) merch h =
    if_both IsDistinct (is_merch && not (text_eq size [])) (insert-IsDistinct name _ merch h) h

module _ {F : Type 0} ⦃float : Float F⦄ ⦃case : CaseTable⦄ (opts : Options) where
  count_ticket-HasKeys :
      (order : Order F) (ticket : Ticket F) (s : Summary F)
      → HasKeys s
      → HasKeys (count_ticket opts order ticket s)
  unfolding count_ticket add_row
  count_ticket-HasKeys order ticket s h = record {
    states = h.states;
    groups = insert-IsDistinct _ _ s.ticket_groups h.groups;
    merch = add_merch-IsDistinct _ s.merch h.merch;
  }

  count_tickets-HasKeys :
      (order : Order F) (tickets : List (Ticket F)) (s : Summary F)
      → HasKeys s
      → HasKeys (count_tickets opts order tickets s)
  unfolding count_tickets
  count_tickets-HasKeys order [] s h = h
  count_tickets-HasKeys order (ticket ∷ tickets) s h =
      count_tickets-HasKeys order tickets (count_ticket opts order ticket s)
        (count_ticket-HasKeys order ticket s h)

  count_orders-HasKeys :
      (orders : List (Order F)) (s : Summary F) → HasKeys s → HasKeys (count_orders opts orders s)
  unfolding count_orders count_order
  count_orders-HasKeys [] s h = h
  count_orders-HasKeys (order ∷ orders) s h =
      count_orders-HasKeys orders (count_order opts order s) (
        count_tickets-HasKeys order order.tickets _ (record {
          states = insert-IsDistinct order.state _ s.orders_by_state h.states;
          groups = h.groups;
          merch = h.merch;
        }))

  pub summarise-HasKeys : (resp : OrdersResponse F) → HasKeys (summarise resp opts)
  unfolding summarise
  summarise-HasKeys resp =
      count_orders-HasKeys resp.orders (empty_summary resp.uuid)
        (record { states = tt; groups = tt; merch = tt })

-- A summary without double keys has the same JSON when it has been decoded.
pub put_summary_fields :
    {F : Type 0} ⦃float : Float F⦄ (s : Summary F)
    → HasKeys s
    → put_fields summary_fields (restore_summary s) ≡ put_fields summary_fields s
unfolding summary_fields put_fields restore_summary
put_summary_fields s h = rw (put_map-restore_map count_kind s.orders_by_state h.states) (
    rw (put_map-restore_map ticket_group_kind s.ticket_groups h.groups)
      (rw (put_map-restore_map size_counts_kind s.merch h.merch)))

pub put_summary :
    {F : Type 0} ⦃float : Float F⦄ (s : Summary F)
    → HasKeys s
    → summary_kind.put (restore_summary s) ≡ summary_kind.put s
unfolding put_struct
put_summary s h = rw (put_summary_fields s h)
