-- ===== src/Aggregate/Tags/Restore.antt =====
-- internal/aggregate: the summary and the sponsors as they are decoded from what they encode.
use ticketbutler_proxy.Common.{refl, List, [], ◌∷◌}
use ticketbutler_proxy.Float.{Float, IsFloat}
use ticketbutler_proxy.Text.{text_functions}
use ticketbutler_proxy.Json.Kind.{IsKind}
use ticketbutler_proxy.Json.Kind.Laws.{text_kind-IsKind, int_kind-IsKind, count_kind-IsKind}
use ticketbutler_proxy.Json.Struct.{find_field}
use ticketbutler_proxy.Json.Struct.Laws.{struct_kind-IsKind, field-IsField}
use ticketbutler_proxy.Json.Map.{restore_map, map_kind-IsKind}
use ticketbutler_proxy.Ticketbutler.Tags.Amount.{float_kind-IsKind}
use ticketbutler_proxy.Aggregate.Sizes.{SizeCounts}
use ticketbutler_proxy.Aggregate.Summary.{Counts, TicketGroup, Summary}
use ticketbutler_proxy.Aggregate.Sponsors.{Sponsor}
use ticketbutler_proxy.Aggregate.Tags.{
  size_counts_fields, no_size_counts, size_counts_kind, counts_fields, no_counts, counts_kind,
  ticket_group_fields, no_ticket_group, ticket_group_kind, summary_fields, no_summary, summary_kind,
  sponsor_fields, no_sponsor, sponsor_kind,
}

-- The maps of a summary are decoded key by key.
unfoldable pub restore_summary : {F : Type 0} → Summary F → Summary F
restore_summary s = record s {
  orders_by_state = restore_map (λ n. n) s.orders_by_state;
  ticket_groups = restore_map (λ row. row) s.ticket_groups;
  merch = restore_map (λ sizes. sizes) s.merch;
}

size_counts_copies : List (SizeCounts → SizeCounts → SizeCounts)
size_counts_copies =
    (λ (x y : SizeCounts). record y { small = x.small })
    ∷ (λ (x y : SizeCounts). record y { medium = x.medium })
    ∷ (λ (x y : SizeCounts). record y { large = x.large })
    ∷ (λ (x y : SizeCounts). record y { xl = x.xl })
    ∷ (λ (x y : SizeCounts). record y { xxl = x.xxl })
    ∷ (λ (x y : SizeCounts). record y { xxxl = x.xxxl })
    ∷ []

pub size_counts_kind-IsKind : IsKind size_counts_kind (λ x. x)
unfolding size_counts_fields size_counts_copies find_field text_functions
size_counts_kind-IsKind =
    struct_kind-IsKind size_counts_fields no_size_counts size_counts_copies _
      (
        field-IsField count_kind-IsKind _ _ _,
        (
          field-IsField count_kind-IsKind _ _ _,
          (
            field-IsField count_kind-IsKind _ _ _,
            (
              field-IsField count_kind-IsKind _ _ _,
              (field-IsField count_kind-IsKind _ _ _, (field-IsField count_kind-IsKind _ _ _, tt)),
            ),
          ),
        ),
      )
      (refl, (refl, (refl, (refl, (refl, (refl, tt)))))) (λ x. refl)

counts_copies : List (Counts → Counts → Counts)
counts_copies =
    (λ (x y : Counts). record y { orders = x.orders })
    ∷ (λ (x y : Counts). record y { tickets = x.tickets })
    ∷ []

pub counts_kind-IsKind : IsKind counts_kind (λ x. x)
unfolding counts_fields counts_copies find_field text_functions
counts_kind-IsKind =
    struct_kind-IsKind counts_fields no_counts counts_copies _
      (field-IsField count_kind-IsKind _ _ _, (field-IsField count_kind-IsKind _ _ _, tt))
      (refl, (refl, tt)) (λ x. refl)

sponsor_copies : List (Sponsor → Sponsor → Sponsor)
sponsor_copies =
    (λ (x y : Sponsor). record y { company_name = x.company_name })
    ∷ (λ (x y : Sponsor). record y { email = x.email })
    ∷ (λ (x y : Sponsor). record y { full_name = x.full_name })
    ∷ (λ (x y : Sponsor). record y { ticket_type_pk = x.ticket_type_pk })
    ∷ (λ (x y : Sponsor). record y { ticket_type_name = x.ticket_type_name })
    ∷ []

pub sponsor_kind-IsKind : IsKind sponsor_kind (λ x. x)
unfolding sponsor_fields sponsor_copies find_field text_functions
sponsor_kind-IsKind =
    struct_kind-IsKind sponsor_fields no_sponsor sponsor_copies _
      (
        field-IsField text_kind-IsKind _ _ _,
        (
          field-IsField text_kind-IsKind _ _ _,
          (
            field-IsField text_kind-IsKind _ _ _,
            (field-IsField int_kind-IsKind _ _ _, (field-IsField text_kind-IsKind _ _ _, tt)),
          ),
        ),
      )
      (refl, (refl, (refl, (refl, (refl, tt))))) (λ x. refl)

module _ {F : Type 0} ⦃float : Float F⦄ {cents : F → F} (laws : IsFloat float cents) where
  ticket_group_copies : List (TicketGroup F → TicketGroup F → TicketGroup F)
  ticket_group_copies =
      (λ (x y : TicketGroup F). record y { count = x.count })
      ∷ (λ (x y : TicketGroup F). record y { income_ex_vat = x.income_ex_vat })
      ∷ []

  pub ticket_group_kind-IsKind : IsKind (ticket_group_kind {F = F}) (λ x. x)
  unfolding ticket_group_fields ticket_group_copies find_field text_functions
  ticket_group_kind-IsKind =
      struct_kind-IsKind ticket_group_fields no_ticket_group ticket_group_copies _
        (field-IsField count_kind-IsKind _ _ _, (field-IsField (float_kind-IsKind laws) _ _ _, tt))
        (refl, (refl, tt)) (λ x. refl)

  summary_copies : List (Summary F → Summary F → Summary F)
  summary_copies =
      (λ (x y : Summary F). record y { schema_version = x.schema_version })
      ∷ (λ (x y : Summary F). record y { event_uuid = x.event_uuid })
      ∷ (λ (x y : Summary F). record y { counts = x.counts })
      ∷ (λ (x y : Summary F). record y { orders_by_state = restore_map (λ n. n) x.orders_by_state })
      ∷ (λ (x y : Summary F). record y { ticket_groups = restore_map (λ row. row) x.ticket_groups })
      ∷ (λ (x y : Summary F). record y { tshirt_sizes = x.tshirt_sizes })
      ∷ (λ (x y : Summary F). record y { merch = restore_map (λ sizes. sizes) x.merch })
      ∷ []

  pub summary_kind-IsKind : IsKind (summary_kind {F = F}) restore_summary
  unfolding restore_summary summary_fields summary_copies find_field text_functions
  summary_kind-IsKind =
      struct_kind-IsKind summary_fields no_summary summary_copies _
        (
          field-IsField count_kind-IsKind _ _ _,
          (
            field-IsField text_kind-IsKind _ _ _,
            (
              field-IsField counts_kind-IsKind _ _ _,
              (
                field-IsField (map_kind-IsKind count_kind-IsKind) _ _ _,
                (
                  field-IsField (map_kind-IsKind ticket_group_kind-IsKind) _ _ _,
                  (
                    field-IsField size_counts_kind-IsKind _ _ _,
                    (field-IsField (map_kind-IsKind size_counts_kind-IsKind) _ _ _, tt),
                  ),
                ),
              ),
            ),
          ),
        )
        (refl, (refl, (refl, (refl, (refl, (refl, (refl, tt))))))) (λ x. refl)
