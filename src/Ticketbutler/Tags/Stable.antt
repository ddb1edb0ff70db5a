-- ===== src/Ticketbutler/Tags/Stable.antt =====
-- The JSON of a payload, before and after its amounts have been rounded to the cent.
use ticketbutler_proxy.Common.{◌≡◌, refl, Option, none, some, List, [], ◌∷◌, map}
use mathlib.Core.Option
use ticketbutler_proxy.Float.{Float, IsFloat}
use ticketbutler_proxy.Json.Kind.{Kind, put_pointer, put_items, put_slice}
use ticketbutler_proxy.Json.Struct.{put_fields, put_struct}
use ticketbutler_proxy.Ticketbutler.Types.{OrderLine, Ticket, Order, OrdersResponse, marshal_amount}
use ticketbutler_proxy.Ticketbutler.Tags.{
  put_amount, amount_kind, order_line_fields, order_line_kind, ticket_fields, ticket_kind,
  order_fields, order_kind, orders_response_fields, orders_response_kind,
}
use ticketbutler_proxy.Ticketbutler.Tags.Lines.{
  restore_order_line, restore_ticket, restore_order, restore_orders,
}

module _ {A : Type 0} (kind : Kind A) (restore : A → A)
    (same : (x : A) → kind.put (restore x) ≡ kind.put x) where
  put_items-map : (xs : List A) → put_items kind (map restore xs) ≡ put_items kind xs
  unfolding put_items
  put_items-map [] = refl
  put_items-map (x ∷ xs) = rw (same x) (rw (put_items-map xs))

  pub put_slice-map : (xs : List A) → put_slice kind (map restore xs) ≡ put_slice kind xs
  unfolding put_slice
  put_slice-map xs = rw (put_items-map xs)

  pub put_pointer-map :
      (o : Option A) → put_pointer kind (Option.map restore o) ≡ put_pointer kind o
  unfolding put_pointer
  put_pointer-map none = refl
  put_pointer-map (some x) = same x

module _ {F : Type 0} ⦃float : Float F⦄ {cents : F → F} (laws : IsFloat float cents) where
  put_amount-cents : (a : F) → put_amount (cents a) ≡ put_amount a
  unfolding put_amount marshal_amount
  put_amount-cents a = rw (laws.format_cents-cents a)

  put_order_line :
      (x : OrderLine F) → order_line_kind.put (restore_order_line cents x) ≡ order_line_kind.put x
  unfolding order_line_fields put_struct put_fields restore_order_line
  put_order_line x = rw (put_amount-cents x.price) (
      rw (put_amount-cents x.total)
        (rw (put_pointer-map amount_kind cents put_amount-cents x.discount_total)))

  put_ticket : (x : Ticket F) → ticket_kind.put (restore_ticket cents x) ≡ ticket_kind.put x
  unfolding ticket_fields put_struct put_fields restore_ticket
  put_ticket x = rw (put_amount-cents x.price) (rw (put_amount-cents x.price_total))

  put_order : (x : Order F) → order_kind.put (restore_order cents x) ≡ order_kind.put x
  unfolding order_fields put_struct put_fields restore_order
  put_order x =
      rw (put_slice-map order_line_kind (restore_order_line cents) put_order_line x.order_lines)
        (rw (put_slice-map ticket_kind (restore_ticket cents) put_ticket x.tickets))

  -- A payload has the same JSON when its amounts have been rounded to the cent.
  pub put_orders :
      (x : OrdersResponse F)
      → orders_response_kind.put (restore_orders cents x) ≡ orders_response_kind.put x
  unfolding orders_response_fields put_struct put_fields restore_orders
  put_orders x = rw (put_slice-map order_kind (restore_order cents) put_order x.orders)
