-- ===== src/Ticketbutler/Tags/Restore.antt =====
-- The payload as it is decoded from what it encodes: amounts are rounded to the cent.
use ticketbutler_proxy.Common.{◌≡◌, refl, Option, none, some, List, [], ◌∷◌, map}
use ticketbutler_proxy.Float.{Float, IsFloat}
use ticketbutler_proxy.Text.{text_functions}
use ticketbutler_proxy.Json.Value.{Json}
use ticketbutler_proxy.Json.Kind.{IsKind}
use ticketbutler_proxy.Json.Kind.Laws.{text_kind-IsKind, bool_kind-IsKind, slice_kind-IsKind}
use ticketbutler_proxy.Json.Struct.{find_field}
use ticketbutler_proxy.Json.Struct.Laws.{
  copy_all, copy_raw, struct_kind-IsKind, field-IsField, raw_field-IsField,
}
use ticketbutler_proxy.Ticketbutler.Tags.Amount.{float_kind-IsKind}
use ticketbutler_proxy.Ticketbutler.Types.{Order, OrdersResponse}
use ticketbutler_proxy.Ticketbutler.Tags.{
  order_fields, no_order, order_kind, orders_response_fields, no_orders_response,
  orders_response_kind,
}
use ticketbutler_proxy.Ticketbutler.Tags.Answers.{address_kind-IsKind}
use ticketbutler_proxy.Ticketbutler.Tags.Lines.{
  restore_order_line, restore_ticket, restore_order, restore_orders, order_line_kind-IsKind,
  ticket_kind-IsKind,
}

module _ {F : Type 0} ⦃float : Float F⦄ {cents : F → F} (laws : IsFloat float cents) where
  order_copies : List (Order F → Order F → Order F)
  order_copies =
      (λ (x y : Order F). record y { uuid = x.uuid })
      ∷ (λ (x y : Order F). record y { order_id = x.order_id })
      ∷ (λ (x y : Order F). record y { currency = x.currency })
      ∷ (λ (x y : Order F). record y { state = x.state })
      ∷ (λ (x y : Order F). record y { date = x.date })
      ∷ (λ (x y : Order F). record y { vat_exempt = x.vat_exempt })
      ∷ (λ (x y : Order F). record y { vat_rate = x.vat_rate })
      ∷ (λ (x y : Order F). record y { news_letter = x.news_letter })
      ∷ (λ (x y : Order F). record y { payment_method = x.payment_method })
      ∷ (λ (x y : Order F). record y { address = x.address })
      ∷ (λ (x y : Order F).
          copy_raw (λ (a : Option Json) (z : Order F). record z { discount = a }) x.discount y)
      ∷ (λ (x y : Order F). record y { order_lines = map (restore_order_line cents) x.order_lines })
      ∷ (λ (x y : Order F). record y { tickets = map (restore_ticket cents) x.tickets })
      ∷ []

  order_copied : (x : Order F) → copy_all order_copies x no_order ≡ restore_order cents x
  unfolding order_copies restore_order
  order_copied x =
      elim x.discount
        as (λ d.
          copy_all order_copies (record x { discount = d }) no_order
          ≡ restore_order cents (record x { discount = d })) [ none ↦ refl | some j ↦ refl ]

  pub order_kind-IsKind : IsKind order_kind (restore_order cents)
  unfolding order_fields order_copies find_field text_functions
  order_kind-IsKind =
      struct_kind-IsKind order_fields no_order order_copies _
        (
          field-IsField text_kind-IsKind _ _ _,
          (
            field-IsField text_kind-IsKind _ _ _,
            (
              field-IsField text_kind-IsKind _ _ _,
              (
                field-IsField text_kind-IsKind _ _ _,
                (
                  field-IsField text_kind-IsKind _ _ _,
                  (
                    field-IsField bool_kind-IsKind _ _ _,
                    (
                      field-IsField (float_kind-IsKind laws) _ _ _,
                      (
                        field-IsField bool_kind-IsKind _ _ _,
                        (
                          field-IsField text_kind-IsKind _ _ _,
                          (
                            field-IsField address_kind-IsKind _ _ _,
                            (
                              raw_field-IsField _ _
                                  (λ (a : Option Json) (z : Order F). record z { discount = a }),
                              (
                                field-IsField (slice_kind-IsKind (order_line_kind-IsKind laws)) _ _
                                    _,
                                (
                                  field-IsField (slice_kind-IsKind (ticket_kind-IsKind laws)) _ _ _,
                                  tt,
                                ),
                              ),
                            ),
                          ),
                        ),
                      ),
                    ),
                  ),
                ),
              ),
            ),
          ),
        )
        (
          refl,
          (
            refl,
            (
              refl,
              (refl, (refl, (refl, (refl, (refl, (refl, (refl, (refl, (refl, (refl, tt)))))))))),
            ),
          ),
        )
        (λ x. order_copied x)

  orders_response_copies : List (OrdersResponse F → OrdersResponse F → OrdersResponse F)
  orders_response_copies =
      (λ (x y : OrdersResponse F). record y { uuid = x.uuid })
      ∷ (λ (x y : OrdersResponse F). record y { orders = map (restore_order cents) x.orders })
      ∷ []

  pub orders_response_kind-IsKind : IsKind orders_response_kind (restore_orders cents)
  unfolding restore_orders orders_response_fields orders_response_copies find_field text_functions
  orders_response_kind-IsKind =
      struct_kind-IsKind orders_response_fields no_orders_response orders_response_copies _
        (
          field-IsField text_kind-IsKind _ _ _,
          (field-IsField (slice_kind-IsKind order_kind-IsKind) _ _ _, tt),
        )
        (refl, (refl, tt)) (λ x. refl)
