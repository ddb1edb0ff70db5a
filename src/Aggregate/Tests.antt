-- ===== src/Aggregate/Tests.antt =====
-- Runs of the aggregation on a small payload.
use mathlib.Core.Option
use mathlib.Core.List.{reverse, reverse_perm}
use mathlib.Core.List.Perm
use ticketbutler_proxy.Common.{ℕ, ◌≡◌, refl, false, none, some, List, [], ◌∷◌, String, map, length}
use ticketbutler_proxy.Int.{pos}
use ticketbutler_proxy.Dict.{lookup, insert}
use ticketbutler_proxy.Float.Milli.{milli}
use ticketbutler_proxy.Text.{codes, text_functions}
use ticketbutler_proxy.Text.Ascii.{ascii_case}
use ticketbutler_proxy.Ticketbutler.Types.{Ticket, Order, OrdersResponse, answer_for, first_choice}
use ticketbutler_proxy.Aggregate.Sizes.{add_size, normalize_size}
use ticketbutler_proxy.Aggregate.Summary.{
  Summary, Options, summarise, split_merch, matches_pattern, product_and_size, group_free,
  group_discounted,
}
use ticketbutler_proxy.Aggregate.Summary.Lines.{
  all_tickets, incomes, row_of, product_sizes, tally_of,
}
use ticketbutler_proxy.Aggregate.Summary.Names.{Reads, split_merch-Reads}
use ticketbutler_proxy.Aggregate.Summary.Groups.{lookup-ticket_groups}
use ticketbutler_proxy.Aggregate.Summary.Shares.{sum_counts, sum_counts-summarise}
use ticketbutler_proxy.Aggregate.Summary.Reordered.{SameNumbers, summarise-perm}
use ticketbutler_proxy.Aggregate.Summary.Merch.{lookup-merch}
use ticketbutler_proxy.Aggregate.Sponsors.{
  Sponsor, sponsor_of, sponsors, sort, less, insert_sorted, is_wanted, is_seen, company_key,
  visit_orders, visit_tickets, visit,
}
use ticketbutler_proxy.Aggregate.Sponsors.Find.{find, find_ticket, IsDistinct}
use ticketbutler_proxy.Aggregate.Sponsors.Sorted.{IsAscending}
use ticketbutler_proxy.Aggregate.Sponsors.Collect.{find-sponsors, sponsors_sorted}

abbrev ticket : String → String → ℕ → ℕ → Ticket ℕ
ticket name company price income = record {
  id = pos 1;
  uuid = [];
  purchase_uuid = [];
  ticket_type_pk = pos 7;
  ticket_type_name = codes name;
  first_name = [];
  last_name = [];
  full_name = [];
  email = [];
  company_name = codes company;
  price = price;
  price_total = income;
  checked_in = false;
  ticket_refund = false;
  answer_collection = none;
}

abbrev order : List (Ticket ℕ) → Order ℕ
order tickets = record {
  uuid = [];
  order_id = [];
  currency = [];
  state = codes "PAID";
  date = [];
  vat_exempt = false;
  vat_rate = 250;
  news_letter = false;
  payment_method = [];
  address = record { first_name = []; last_name = []; email = []; phone = []; business_name = [] };
  discount = none;
  order_lines = [];
  tickets = tickets;
}

abbrev pub payload : OrdersResponse ℕ
payload = record {
  uuid = [];
  orders =
      order
        (ticket "Blind Bird" "Acme" 1250 1250 ∷ ticket "Hoodie Black - 2XL" " acme " 2500 2500 ∷ [])
      ∷ order (ticket "Hoodie Black - XL" "Other" 0 0 ∷ ticket "Blind Bird" "" 1250 625 ∷ [])
      ∷ [];
}

abbrev pub options : Options
options = record { merch_name_patterns = codes "hoodie" ∷ []; sponsor_ticket_type_pks = pos 7 ∷ [] }

abbrev summary : Summary ℕ
summary = summarise payload options

running : Unit {0}
unfolding summarise lookup insert text_functions answer_for first_choice add_size normalize_size
running = tt

groups :
    (lookup (codes "Blind Bird") summary.ticket_groups
      ≡ some (record { count = 1; income_ex_vat = 1000 }))
    × (lookup (codes "Hoodie Black") summary.ticket_groups
        ≡ some (record { count = 1; income_ex_vat = 2000 }))
    × (lookup group_discounted summary.ticket_groups
        ≡ some (record { count = 1; income_ex_vat = 500 }))
    × (lookup group_free summary.ticket_groups ≡ some (record { count = 1; income_ex_vat = 0 }))
unfolding running
groups = (refl, refl, refl, refl)

merch_sizes :
    lookup (codes "Hoodie Black") summary.merch
    ≡ some (record { small = 0; medium = 0; large = 0; xl = 1; xxl = 1; xxxl = 0 })
unfolding running
merch_sizes = refl

-- Two tickets of one company, and one of no company.
sponsor_companies :
    map (λ (s : Sponsor). s.company_name) (sponsors payload options)
    ≡ codes "Acme" ∷ codes "Other" ∷ []
unfolding running sponsors sort less insert_sorted is_wanted is_seen company_key visit_orders
    visit_tickets visit sponsor_of
sponsor_companies = refl

lookup-ticket_groups_example :
    lookup (codes "Hoodie Black") summary.ticket_groups
    ≡ row_of (incomes options (codes "Hoodie Black") payload.orders)
lookup-ticket_groups_example = lookup-ticket_groups payload options (codes "Hoodie Black")

sum_counts-summarise_example :
    sum_counts summary.ticket_groups ≡ length (all_tickets payload.orders)
sum_counts-summarise_example = sum_counts-summarise payload options

lookup-merch_example :
    lookup (codes "Hoodie Black") summary.merch
    ≡ tally_of (product_sizes options (codes "Hoodie Black") (all_tickets payload.orders))
lookup-merch_example = lookup-merch payload options (codes "Hoodie Black")

find-sponsors_example :
    find (codes "acme") (sponsors payload options)
    ≡ Option.map sponsor_of (find_ticket (pos 7 ∷ []) (codes "acme") (all_tickets payload.orders))
find-sponsors_example = find-sponsors payload options (codes "acme") (λ e. cc)

sponsors_sorted_example :
    IsAscending (sponsors payload options) × IsDistinct (sponsors payload options)
sponsors_sorted_example = sponsors_sorted payload options

-- Two separators that overlap: the first is taken.
split_merch-Reads_example : Reads (codes "Hoodie - - XL") (codes "Hoodie") (codes "- xl")
unfolding split_merch matches_pattern product_and_size text_functions normalize_size
split_merch-Reads_example =
    split_merch-Reads (codes "Hoodie - - XL") (codes "hoodie" ∷ []) (codes "Hoodie") (codes "- xl")
      refl (λ e. cc)

abbrev reversed : OrdersResponse ℕ
reversed = record { uuid = []; orders = reverse payload.orders }

summarise-perm_example :
    SameNumbers
      (codes "Blind Bird")
      (codes "PAID")
      (codes "Hoodie Black")
      summary
      (summarise reversed options)
summarise-perm_example =
    summarise-perm payload reversed options (codes "Blind Bird") (codes "PAID")
      (codes "Hoodie Black") (Perm.symm (reverse_perm payload.orders))
