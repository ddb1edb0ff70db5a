-- ===== src/Legacy/Sponsors/Parity.antt =====
-- testdata/parity/legacy.js against internal/aggregate/sponsors.go: the companies.
use ticketbutler_proxy.Common.{
  ◌≡◌, refl, ap, ◌∙◌, List, [], ◌∷◌, map, arith, All, All-append, if_both,
}
use mathlib.Core.List.{map-append}
use mathlib.Core.Path.{ap₂}
use ticketbutler_proxy.Int.{ℤ, pos, eq_ℤ, eq_ℤ_iff}
use ticketbutler_proxy.Text.{Text, CaseTable}
use ticketbutler_proxy.Ticketbutler.Types.{Ticket, Order, OrdersResponse}
use ticketbutler_proxy.Aggregate.Sponsors.{
  Sponsor, sponsor_of, is_wanted, is_seen, company_key, Found, visit, visit_tickets, visit_orders,
  less, insert_sorted, sort, sponsors, sponsors_of,
}
use ticketbutler_proxy.Legacy.Runtime.{Js, IsPlain, IsJs}
use ticketbutler_proxy.Legacy.Plain.{trim_space-All}
use ticketbutler_proxy.Legacy.Parity.{script_options}
use ticketbutler_proxy.Legacy.Sponsors.{
  Listed, has, script_key, list_ticket, list_tickets, list_orders, before, insert_name, sort_names,
  script_sponsors,
}

abbrev pub company_names : List Sponsor → List Text
company_names ss = map (λ (s : Sponsor). s.company_name) ss

-- The variables of the script that show those of the service.
abbrev listed_of : Found → Listed
listed_of found = record { seen = found.seen; sponsors = company_names found.sponsors }

abbrev ArePlain : List Sponsor → Type 0
ArePlain ss = All (λ (s : Sponsor). IsPlain s.company_name) ss

has-eq-is_seen : (seen : List Text) (key : Text) → has seen key ≡ is_seen seen key
unfolding has is_seen
has-eq-is_seen [] key = refl
has-eq-is_seen (k ∷ seen) key = rw (has-eq-is_seen seen key) refl

abbrev wanted : List ℤ
wanted = pos 183067 ∷ []

is_wanted_lem : (pk : ℤ) → eq_ℤ pk (pos 183067) ≡ is_wanted wanted pk
unfolding is_wanted
is_wanted_lem pk = ground (arith, eq_ℤ_iff pk (pos 183067), eq_ℤ_iff (pos 183067) pk)

module _ {F : Type 0} ⦃case : CaseTable⦄ where
  visit-ArePlain :
      (ticket : Ticket F) (found : Found)
      → IsPlain ticket.company_name
      → ArePlain found.sponsors
      → ArePlain (visit wanted ticket found).sponsors
  unfolding visit sponsor_of
  visit-ArePlain ticket found p h =
      if_both (λ (f : Found). ArePlain f.sponsors) (is_wanted wanted ticket.ticket_type_pk)
        (if_both (λ (f : Found). ArePlain f.sponsors) _ h (All-append _ found.sponsors _ h (p, tt)))
        h

  visit_tickets-ArePlain :
      (tickets : List (Ticket F)) (found : Found)
      → All (λ (t : Ticket F). IsPlain t.company_name) tickets
      → ArePlain found.sponsors
      → ArePlain (visit_tickets wanted tickets found).sponsors
  unfolding visit_tickets
  visit_tickets-ArePlain [] found h k = k
  visit_tickets-ArePlain (ticket ∷ tickets) found (p, h) k =
      visit_tickets-ArePlain tickets _ h (visit-ArePlain ticket found p k)

  visit_orders-ArePlain :
      (orders : List (Order F)) (found : Found)
      → All (λ (o : Order F). All (λ (t : Ticket F). IsPlain t.company_name) o.tickets) orders
      → ArePlain found.sponsors
      → ArePlain (visit_orders wanted orders found).sponsors
  unfolding visit_orders
  visit_orders-ArePlain [] found h k = k
  visit_orders-ArePlain (order ∷ orders) found (p, h) k =
      visit_orders-ArePlain orders _ h (visit_tickets-ArePlain order.tickets found p k)

abbrev nothing : Found
nothing = record { seen = []; sponsors = [] }

module _ ⦃case : CaseTable⦄ (js : Js) (runtime : IsJs js) where
  script_key_lem : (company : Text) → IsPlain company → script_key js company ≡ company_key company
  unfolding script_key company_key
  script_key_lem company h =
      ap js.to_lower_case (runtime.trim-eq company h)
      ∙ runtime.to_lower_case-eq _ (trim_space-All _ company h)

  list_ticket_lem :
      {F : Type 0} (ticket : Ticket F) (found : Found)
      → IsPlain ticket.company_name
      → list_ticket js ticket (listed_of found) ≡ listed_of (visit wanted ticket found)
  unfolding list_ticket visit sponsor_of
  list_ticket_lem ticket found h = ground (
    arith,
    is_wanted_lem ticket.ticket_type_pk,
    script_key_lem ticket.company_name h,
    has-eq-is_seen found.seen (company_key ticket.company_name),
    map-append (λ (s : Sponsor). s.company_name) found.sponsors (sponsor_of ticket ∷ []),
  )

  list_tickets_lem :
      {F : Type 0} (tickets : List (Ticket F)) (found : Found)
      → All (λ (t : Ticket F). IsPlain t.company_name) tickets
      → list_tickets js tickets (listed_of found) ≡ listed_of (visit_tickets wanted tickets found)
  unfolding list_tickets visit_tickets
  list_tickets_lem [] found h = refl
  list_tickets_lem (ticket ∷ tickets) found (p, h) =
      ap (list_tickets js tickets) (list_ticket_lem ticket found p) ∙ list_tickets_lem tickets _ h

  list_orders_lem :
      {F : Type 0} (orders : List (Order F)) (found : Found)
      → All (λ (o : Order F). All (λ (t : Ticket F). IsPlain t.company_name) o.tickets) orders
      → list_orders js orders (listed_of found) ≡ listed_of (visit_orders wanted orders found)
  unfolding list_orders visit_orders
  list_orders_lem [] found h = refl
  list_orders_lem (order ∷ orders) found (p, h) =
      ap (list_orders js orders) (list_tickets_lem order.tickets found p)
      ∙ list_orders_lem orders _ h

  before_lem :
      (a b : Sponsor)
      → IsPlain a.company_name
      → IsPlain b.company_name
      → before js a.company_name b.company_name ≡ less a b
  unfolding before less
  before_lem a b p q =
      ap₂ js.less (runtime.to_lower_case-eq a.company_name p)
        (runtime.to_lower_case-eq b.company_name q)
      ∙ runtime.less-eq _ _ (runtime.lower_plain _ p) (runtime.lower_plain _ q)

  insert_name_lem :
      (a : Sponsor) (ss : List Sponsor)
      → IsPlain a.company_name
      → ArePlain ss
      → insert_name js a.company_name (company_names ss) ≡ company_names (insert_sorted a ss)
  unfolding insert_name insert_sorted
  insert_name_lem a [] p h = refl
  insert_name_lem a (b ∷ ss) p (q, h) = ground (arith, before_lem a b p q, insert_name_lem a ss p h)

  insert_sorted-ArePlain :
      (a : Sponsor) (ss : List Sponsor)
      → IsPlain a.company_name
      → ArePlain ss
      → ArePlain (insert_sorted a ss)
  unfolding insert_sorted
  insert_sorted-ArePlain a [] p h = (p, h)
  insert_sorted-ArePlain a (b ∷ ss) p (q, h) =
      if_both ArePlain (less a b) (p, (q, h)) (q, insert_sorted-ArePlain a ss p h)

  sort-ArePlain : (ss : List Sponsor) → ArePlain ss → ArePlain (sort ss)
  unfolding sort
  sort-ArePlain [] h = h
  sort-ArePlain (a ∷ ss) (p, h) = insert_sorted-ArePlain a (sort ss) p (sort-ArePlain ss h)

  sort_names_lem :
      (ss : List Sponsor) → ArePlain ss → sort_names js (company_names ss) ≡ company_names (sort ss)
  unfolding sort_names sort
  sort_names_lem [] h = refl
  sort_names_lem (a ∷ ss) (p, h) =
      ap (insert_name js a.company_name) (sort_names_lem ss h)
      ∙ insert_name_lem a (sort ss) p (sort-ArePlain ss h)

-- On a payload whose company names are read alike by JavaScript and Go, the script that the service
-- replaces ends with exactly the companies of the service's sponsors, in the same order, where the
-- service is configured with the script's ticket type.
pub script_sponsors-sponsors :
    {F : Type 0} ⦃case : CaseTable⦄ (js : Js) (resp : OrdersResponse F)
    → IsJs js
    → All (λ (o : Order F). All (λ (t : Ticket F). IsPlain t.company_name) o.tickets) resp.orders
    → script_sponsors js resp ≡ company_names (sponsors resp script_options)
unfolding script_sponsors sponsors sponsors_of
script_sponsors-sponsors js resp runtime h =
    ap (λ (l : Listed). sort_names js l.sponsors) (list_orders_lem js runtime resp.orders nothing h)
    ∙ sort_names_lem js runtime _ (visit_orders-ArePlain resp.orders nothing h tt)
