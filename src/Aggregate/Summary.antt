-- ===== src/Aggregate/Summary.antt =====
-- internal/aggregate/summary.go: the summary of a payload, one ticket at a time.
pub mod Lines
pub mod Groups
pub mod Totals
pub mod Shares
pub mod Merch
pub mod Cuts
pub mod Names
pub mod Reordered
use ticketbutler_proxy.Common.{
  ℕ, ◌+◌, Bool, true, false, not, ◌&&◌, ◌||◌, none, some, List, [], ◌∷◌, if◌then◌else◌,
}
use ticketbutler_proxy.Int.{ℤ}
use ticketbutler_proxy.Float.{Float}
use ticketbutler_proxy.Dict.{Dict, lookup, insert, index}
use ticketbutler_proxy.Text.{
  Text, codes, text_eq, contains, split, join, trim_space, CaseTable, to_lower,
}
use ticketbutler_proxy.Ticketbutler.Types.{Ticket, Order, OrdersResponse, answer_for, first_choice}
use ticketbutler_proxy.Aggregate.Sizes.{SizeCounts, no_sizes, add_size, normalize_size}

abbrev pub schema_version : ℕ
schema_version = 1

abbrev pub group_free : Text
group_free = codes "Sponsors and other free tickets"

abbrev pub group_discounted : Text
group_discounted = codes "Discounted"

abbrev pub tshirt_question : Text
tshirt_question = codes "T-Shirt Size"

pub record Counts : Type 0 where
  pub orders : ℕ
  pub tickets : ℕ

pub record TicketGroup (F : Type 0) : Type 0 where
  pub count : ℕ
  pub income_ex_vat : F

pub record Summary (F : Type 0) : Type 0 where
  pub schema_version : ℕ
  pub event_uuid : Text
  pub counts : Counts
  pub orders_by_state : Dict ℕ
  pub ticket_groups : Dict (TicketGroup F)
  pub tshirt_sizes : SizeCounts
  pub merch : Dict SizeCounts

pub record Options : Type 0 where
  pub merch_name_patterns : List Text
  pub sponsor_ticket_type_pks : List ℤ

-- The loop of `splitMerch` over the patterns.
unfoldable pub matches_pattern : Text → List Text → Bool
matches_pattern lower [] = false
matches_pattern lower (pattern_text ∷ patterns) =
    not (text_eq pattern_text []) && contains lower pattern_text || matches_pattern lower patterns

-- `parts[:len(parts)-1]` and `parts[len(parts)-1]`.
unfoldable pub all_but_last : List Text → List Text
all_but_last [] = []
all_but_last (part ∷ []) = []
all_but_last (part ∷ next ∷ parts) = part ∷ all_but_last (next ∷ parts)

unfoldable pub last_part : List Text → Text
last_part [] = []
last_part (part ∷ []) = part
last_part (part ∷ next ∷ parts) = last_part (next ∷ parts)

abbrev pub separator : Text
separator = codes " - "

-- The product and the size of a merchandise name, from its parts.
unfoldable pub product_and_size : ⦃case : CaseTable⦄ → Text → List Text → Text × Text × Bool
unfolding all_but_last last_part
product_and_size name (part ∷ next ∷ parts) = (
  trim_space (join (all_but_last (part ∷ next ∷ parts)) separator),
  normalize_size (last_part (part ∷ next ∷ parts)),
  true,
)
product_and_size name _ = (name, [], true)

-- The product, the size, and whether the name is one of merchandise.
unfoldable pub split_merch : ⦃case : CaseTable⦄ → Text → List Text → Text × Text × Bool
unfolding matches_pattern product_and_size
split_merch name patterns =
    if matches_pattern (to_lower name) patterns
    then product_and_size name (split name separator)
    else (name, [], false)

-- The switch that regroups a ticket by its price.
unfoldable pub regroup : {F : Type 0} ⦃float : Float F⦄ → Ticket F → Text → Text
regroup ⦃float⦄ ticket group =
    if float.eq ticket.price_total float.zero_float
    then group_free
    else if float.lt ticket.price_total ticket.price
    then group_discounted
    else group

unfoldable pub income_of : {F : Type 0} ⦃float : Float F⦄ → Order F → Ticket F → F
income_of ⦃float⦄ order ticket =
    if order.vat_exempt
    then ticket.price_total
    else float.div ticket.price_total (float.add (float.of_int (ℤ.pos 1)) order.vat_rate)

unfoldable pub add_row :
    {F : Type 0} ⦃float : Float F⦄ → Text → F → Dict (TicketGroup F) → Dict (TicketGroup F)
add_row ⦃float⦄ group income groups =
    let row : TicketGroup _ =
      index (record { count = 0; income_ex_vat = float.zero_float }) group groups in
    insert group
      (record { count = row.count + 1; income_ex_vat = float.add row.income_ex_vat income }) groups

-- The tally of a product's sizes, where the name holds a size.
unfoldable pub add_merch : Text × Text × Bool → Dict SizeCounts → Dict SizeCounts
add_merch (name, size, is_merch) merch =
    if is_merch && not (text_eq size [])
    then insert name (add_size (index no_sizes name merch) size).0 merch
    else merch

unfoldable pub add_tshirt : {F : Type 0} ⦃case : CaseTable⦄ → Ticket F → SizeCounts → SizeCounts
add_tshirt ticket sizes = elim (answer_for ticket tshirt_question) [
  | none ↦ sizes
  | some answer ↦ (add_size sizes (normalize_size (first_choice answer))).0
]

-- The group under which a ticket is reported.
unfoldable pub group_of :
    {F : Type 0} ⦃float : Float F⦄ ⦃case : CaseTable⦄ → Options → Ticket F → Text
unfolding split_merch regroup
group_of opts ticket =
    let (name, _, is_merch) = split_merch ticket.ticket_type_name opts.merch_name_patterns in
    regroup ticket (if is_merch then name else ticket.ticket_type_name)

module _ {F : Type 0} ⦃float : Float F⦄ ⦃case : CaseTable⦄ (opts : Options) where
  -- The body of the loop over an order's tickets.
  unfoldable pub count_ticket : Order F → Ticket F → Summary F → Summary F
  unfolding split_merch add_merch add_tshirt group_of income_of add_row
  count_ticket order ticket s = record s {
    counts = record s.counts { tickets = s.counts.tickets + 1 };
    merch = add_merch (split_merch ticket.ticket_type_name opts.merch_name_patterns) s.merch;
    tshirt_sizes = add_tshirt ticket s.tshirt_sizes;
    ticket_groups = add_row (group_of opts ticket) (income_of order ticket) s.ticket_groups;
  }

  unfoldable pub count_tickets : Order F → List (Ticket F) → Summary F → Summary F
  count_tickets order [] s = s
  count_tickets order (ticket ∷ tickets) s =
      count_tickets order tickets (count_ticket order ticket s)

  -- The body of the loop over the orders.
  unfoldable pub count_order : Order F → Summary F → Summary F
  unfolding count_tickets
  count_order order s = count_tickets order order.tickets (record s {
    counts = record s.counts { orders = s.counts.orders + 1 };
    orders_by_state =
        insert order.state (index 0 order.state s.orders_by_state + 1) s.orders_by_state;
  })

  unfoldable pub count_orders : List (Order F) → Summary F → Summary F
  count_orders [] s = s
  count_orders (order ∷ orders) s = count_orders orders (count_order order s)

abbrev pub empty_summary : {F : Type 0} → Text → Summary F
empty_summary uuid = record {
  schema_version = schema_version;
  event_uuid = uuid;
  counts = record { orders = 0; tickets = 0 };
  orders_by_state = [];
  ticket_groups = [];
  tshirt_sizes = no_sizes;
  merch = [];
}

unfoldable pub summarise :
    {F : Type 0} ⦃float : Float F⦄ ⦃case : CaseTable⦄ → OrdersResponse F → Options → Summary F
unfolding count_orders count_order count_ticket
summarise resp opts = count_orders opts resp.orders (empty_summary resp.uuid)
