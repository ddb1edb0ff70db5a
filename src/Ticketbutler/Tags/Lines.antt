-- ===== src/Ticketbutler/Tags/Lines.antt =====
-- Order lines and tickets as they are decoded from what they encode: amounts are rounded to the cent.
use ticketbutler_proxy.Common.{refl, List, [], ◌∷◌, map}
use mathlib.Core.Option
use ticketbutler_proxy.Float.{Float, IsFloat}
use ticketbutler_proxy.Text.{text_functions}
use ticketbutler_proxy.Json.Kind.{IsKind}
use ticketbutler_proxy.Json.Kind.Laws.{
  text_kind-IsKind, bool_kind-IsKind, int_kind-IsKind, pointer_kind-IsKind, pointer_kind_same,
}
use ticketbutler_proxy.Json.Struct.{find_field}
use ticketbutler_proxy.Json.Struct.Laws.{struct_kind-IsKind, put_struct-ne-null, field-IsField}
use ticketbutler_proxy.Ticketbutler.Tags.Amount.{amount_kind-IsKind, put_amount-ne-null}
use ticketbutler_proxy.Ticketbutler.Types.{OrderLine, Ticket, Order, OrdersResponse}
use ticketbutler_proxy.Ticketbutler.Tags.{
  order_line_fields, no_order_line, order_line_kind, ticket_fields, no_ticket, ticket_kind,
}
use ticketbutler_proxy.Ticketbutler.Tags.Answers.{answer_collection_kind-IsKind}

module _ {F : Type 0} (cents : F → F) where
  unfoldable pub restore_order_line : OrderLine F → OrderLine F
  restore_order_line x = record x {
    price = cents x.price;
    total = cents x.total;
    discount_total = Option.map cents x.discount_total;
  }

  unfoldable pub restore_ticket : Ticket F → Ticket F
  restore_ticket x = record x { price = cents x.price; price_total = cents x.price_total }

  unfoldable pub restore_order : Order F → Order F
  unfolding restore_order_line restore_ticket
  restore_order x = record x {
    order_lines = map restore_order_line x.order_lines;
    tickets = map restore_ticket x.tickets;
  }

  unfoldable pub restore_orders : OrdersResponse F → OrdersResponse F
  unfolding restore_order
  restore_orders x = record x { orders = map restore_order x.orders }

module _ {F : Type 0} ⦃float : Float F⦄ {cents : F → F} (laws : IsFloat float cents) where
  order_line_copies : List (OrderLine F → OrderLine F → OrderLine F)
  order_line_copies =
      (λ (x y : OrderLine F). record y { uuid = x.uuid })
      ∷ (λ (x y : OrderLine F). record y { title = x.title })
      ∷ (λ (x y : OrderLine F). record y { type = x.type })
      ∷ (λ (x y : OrderLine F). record y { quantity = x.quantity })
      ∷ (λ (x y : OrderLine F). record y { price = cents x.price })
      ∷ (λ (x y : OrderLine F). record y { total = cents x.total })
      ∷ (λ (x y : OrderLine F). record y { discount_total = Option.map cents x.discount_total })
      ∷ (λ (x y : OrderLine F). record y {
        amount_of_refunded_tickets = x.amount_of_refunded_tickets;
      })
      ∷ (λ (x y : OrderLine F). record y { ticket_description = x.ticket_description })
      ∷ (λ (x y : OrderLine F). record y { ticket_type_date = x.ticket_type_date })
      ∷ (λ (x y : OrderLine F). record y { has_ticket_type_date = x.has_ticket_type_date })
      ∷ []

  pub order_line_kind-IsKind : IsKind order_line_kind (restore_order_line cents)
  unfolding restore_order_line order_line_fields order_line_copies find_field text_functions
  order_line_kind-IsKind =
      struct_kind-IsKind order_line_fields no_order_line order_line_copies _
        (
          field-IsField text_kind-IsKind _ _ _,
          (
            field-IsField text_kind-IsKind _ _ _,
            (
              field-IsField text_kind-IsKind _ _ _,
              (
                field-IsField int_kind-IsKind _ _ _,
                (
                  field-IsField (amount_kind-IsKind laws) _ _ _,
                  (
                    field-IsField (amount_kind-IsKind laws) _ _ _,
                    (
                      field-IsField
                          (pointer_kind-IsKind (amount_kind-IsKind laws) (put_amount-ne-null laws))
                          _ _ _,
                      (
                        field-IsField int_kind-IsKind _ _ _,
                        (
                          field-IsField (pointer_kind_same text_kind-IsKind (λ s e. cc)) _ _ _,
                          (
                            field-IsField text_kind-IsKind _ _ _,
                            (field-IsField bool_kind-IsKind _ _ _, tt),
                          ),
                        ),
                      ),
                    ),
                  ),
                ),
              ),
            ),
          ),
        )
        (refl, (refl, (refl, (refl, (refl, (refl, (refl, (refl, (refl, (refl, (refl, tt)))))))))))
        (λ x. refl)

  ticket_copies : List (Ticket F → Ticket F → Ticket F)
  ticket_copies =
      (λ (x y : Ticket F). record y { id = x.id })
      ∷ (λ (x y : Ticket F). record y { uuid = x.uuid })
      ∷ (λ (x y : Ticket F). record y { purchase_uuid = x.purchase_uuid })
      ∷ (λ (x y : Ticket F). record y { ticket_type_pk = x.ticket_type_pk })
      ∷ (λ (x y : Ticket F). record y { ticket_type_name = x.ticket_type_name })
      ∷ (λ (x y : Ticket F). record y { first_name = x.first_name })
      ∷ (λ (x y : Ticket F). record y { last_name = x.last_name })
      ∷ (λ (x y : Ticket F). record y { full_name = x.full_name })
      ∷ (λ (x y : Ticket F). record y { email = x.email })
      ∷ (λ (x y : Ticket F). record y { company_name = x.company_name })
      ∷ (λ (x y : Ticket F). record y { price = cents x.price })
      ∷ (λ (x y : Ticket F). record y { price_total = cents x.price_total })
      ∷ (λ (x y : Ticket F). record y { checked_in = x.checked_in })
      ∷ (λ (x y : Ticket F). record y { ticket_refund = x.ticket_refund })
      ∷ (λ (x y : Ticket F). record y { answer_collection = x.answer_collection })
      ∷ []

  pub ticket_kind-IsKind : IsKind ticket_kind (restore_ticket cents)
  unfolding restore_ticket ticket_fields ticket_copies find_field text_functions
  ticket_kind-IsKind =
      struct_kind-IsKind ticket_fields no_ticket ticket_copies _
        (
          field-IsField int_kind-IsKind _ _ _,
          (
            field-IsField text_kind-IsKind _ _ _,
            (
              field-IsField text_kind-IsKind _ _ _,
              (
                field-IsField int_kind-IsKind _ _ _,
                (
                  field-IsField text_kind-IsKind _ _ _,
                  (
                    field-IsField text_kind-IsKind _ _ _,
                    (
                      field-IsField text_kind-IsKind _ _ _,
                      (
                        field-IsField text_kind-IsKind _ _ _,
                        (
                          field-IsField text_kind-IsKind _ _ _,
                          (
                            field-IsField text_kind-IsKind _ _ _,
                            (
                              field-IsField (amount_kind-IsKind laws) _ _ _,
                              (
                                field-IsField (amount_kind-IsKind laws) _ _ _,
                                (
                                  field-IsField bool_kind-IsKind _ _ _,
                                  (
                                    field-IsField bool_kind-IsKind _ _ _,
                                    (
                                      field-IsField
                                          (pointer_kind_same answer_collection_kind-IsKind
                                            (put_struct-ne-null _))
                                          _ _ _,
                                      tt,
                                    ),
                                  ),
                                ),
                              ),
                            ),
                          ),
                        ),
                      ),
                    ),
                  ),
                ),
              ),
            ),
          ),
        )
        (
          refl,
          (
            refl,
            (
              refl,
              (
                refl,
                (
                  refl,
                  (
                    refl,
                    (refl, (refl, (refl, (refl, (refl, (refl, (refl, (refl, (refl, tt))))))))),
                  ),
                ),
              ),
            ),
          ),
        )
        (λ x. refl)
