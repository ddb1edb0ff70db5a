-- ===== src/Aggregate/Tags.antt =====
-- internal/aggregate: the tags of the summary's structs.
pub mod Restore
pub mod Stable
use ticketbutler_proxy.Common.{ℕ, List, [], ◌∷◌}
use ticketbutler_proxy.Int.{pos}
use ticketbutler_proxy.Float.{Float}
use ticketbutler_proxy.Text.{codes}
use ticketbutler_proxy.Json.Kind.{Kind, text_kind, int_kind, count_kind}
use ticketbutler_proxy.Json.Struct.{Field, field, struct_kind}
use ticketbutler_proxy.Json.Map.{map_kind}
use ticketbutler_proxy.Ticketbutler.Tags.{float_kind}
use ticketbutler_proxy.Aggregate.Sizes.{SizeCounts, no_sizes}
use ticketbutler_proxy.Aggregate.Summary.{Counts, TicketGroup, Summary}
use ticketbutler_proxy.Aggregate.Sponsors.{Sponsor}

unfoldable pub size_counts_fields : List (Field SizeCounts)
size_counts_fields =
    field (codes "small") count_kind (λ (x : SizeCounts). x.small) (λ a x. record x { small = a })
    ∷ field (codes "medium") count_kind (λ (x : SizeCounts). x.medium)
        (λ a x. record x { medium = a })
    ∷ field (codes "large") count_kind (λ (x : SizeCounts). x.large) (λ a x. record x { large = a })
    ∷ field (codes "xl") count_kind (λ (x : SizeCounts). x.xl) (λ a x. record x { xl = a })
    ∷ field (codes "2xl") count_kind (λ (x : SizeCounts). x.xxl) (λ a x. record x { xxl = a })
    ∷ field (codes "3xl") count_kind (λ (x : SizeCounts). x.xxxl) (λ a x. record x { xxxl = a })
    ∷ []

abbrev pub no_size_counts : SizeCounts
no_size_counts = record { small = 0; medium = 0; large = 0; xl = 0; xxl = 0; xxxl = 0 }

abbrev pub size_counts_kind : Kind SizeCounts
size_counts_kind = struct_kind size_counts_fields no_size_counts

unfoldable pub counts_fields : List (Field Counts)
counts_fields =
    field (codes "orders") count_kind (λ (x : Counts). x.orders) (λ a x. record x { orders = a })
    ∷ field (codes "tickets") count_kind (λ (x : Counts). x.tickets)
        (λ a x. record x { tickets = a })
    ∷ []

abbrev pub no_counts : Counts
no_counts = record { orders = 0; tickets = 0 }

abbrev pub counts_kind : Kind Counts
counts_kind = struct_kind counts_fields no_counts

unfoldable pub ticket_group_fields : {F : Type 0} ⦃float : Float F⦄ → List (Field (TicketGroup F))
ticket_group_fields {F} =
    field (codes "count") count_kind (λ (x : TicketGroup F). x.count)
      (λ a x. record x { count = a })
    ∷ field (codes "income_ex_vat") float_kind (λ (x : TicketGroup F). x.income_ex_vat)
        (λ a x. record x { income_ex_vat = a })
    ∷ []

abbrev pub no_ticket_group : {F : Type 0} ⦃float : Float F⦄ → TicketGroup F
no_ticket_group ⦃float⦄ = record { count = 0; income_ex_vat = float.zero_float }

abbrev pub ticket_group_kind : {F : Type 0} ⦃float : Float F⦄ → Kind (TicketGroup F)
ticket_group_kind = struct_kind ticket_group_fields no_ticket_group

unfoldable pub summary_fields : {F : Type 0} ⦃float : Float F⦄ → List (Field (Summary F))
summary_fields {F} =
    field (codes "schema_version") count_kind (λ (x : Summary F). x.schema_version)
      (λ a x. record x { schema_version = a })
    ∷ field (codes "event_uuid") text_kind (λ (x : Summary F). x.event_uuid)
        (λ a x. record x { event_uuid = a })
    ∷ field (codes "counts") counts_kind (λ (x : Summary F). x.counts)
        (λ a x. record x { counts = a })
    ∷ field (codes "orders_by_state") (map_kind count_kind) (λ (x : Summary F). x.orders_by_state)
        (λ a x. record x { orders_by_state = a })
    ∷ field (codes "ticket_groups") (map_kind ticket_group_kind)
        (λ (x : Summary F). x.ticket_groups) (λ a x. record x { ticket_groups = a })
    ∷ field (codes "tshirt_sizes") size_counts_kind (λ (x : Summary F). x.tshirt_sizes)
        (λ a x. record x { tshirt_sizes = a })
    ∷ field (codes "merch") (map_kind size_counts_kind) (λ (x : Summary F). x.merch)
        (λ a x. record x { merch = a })
    ∷ []

abbrev pub no_summary : {F : Type 0} → Summary F
no_summary = record {
  schema_version = 0;
  event_uuid = [];
  counts = no_counts;
  orders_by_state = [];
  ticket_groups = [];
  tshirt_sizes = no_size_counts;
  merch = [];
}

abbrev pub summary_kind : {F : Type 0} ⦃float : Float F⦄ → Kind (Summary F)
summary_kind = struct_kind summary_fields no_summary

unfoldable pub sponsor_fields : List (Field Sponsor)
sponsor_fields =
    field (codes "company_name") text_kind (λ (x : Sponsor). x.company_name)
      (λ a x. record x { company_name = a })
    ∷ field (codes "email") text_kind (λ (x : Sponsor). x.email) (λ a x. record x { email = a })
    ∷ field (codes "full_name") text_kind (λ (x : Sponsor). x.full_name)
        (λ a x. record x { full_name = a })
    ∷ field (codes "ticket_type_pk") int_kind (λ (x : Sponsor). x.ticket_type_pk)
        (λ a x. record x { ticket_type_pk = a })
    ∷ field (codes "ticket_type_name") text_kind (λ (x : Sponsor). x.ticket_type_name)
        (λ a x. record x { ticket_type_name = a })
    ∷ []

abbrev pub no_sponsor : Sponsor
no_sponsor = record {
  company_name = [];
  email = [];
  full_name = [];
  ticket_type_pk = pos 0;
  ticket_type_name = [];
}

abbrev pub sponsor_kind : Kind Sponsor
sponsor_kind = struct_kind sponsor_fields no_sponsor
