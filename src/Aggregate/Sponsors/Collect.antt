-- ===== src/Aggregate/Sponsors/Collect.antt =====
-- internal/aggregate/sponsors.go: the loop that collects sponsors, and the list that `Sponsors`
-- returns.
use ticketbutler_proxy.Common.{
  ◌≡◌, ◌≢◌, refl, sym, ap, ◌∙◌, inl, inr, true, false, Bool, ◌&&◌, ◌||◌, Bool-cases, Option, none,
  some, List, [], ◌∷◌, ◌++◌, arith, if◌then◌else◌,
}
use mathlib.Core.Option
use mathlib.Core.Path.{subst}
use ticketbutler_proxy.Int.{ℤ}
use ticketbutler_proxy.Text.{Text, text_eq, CaseTable}
use ticketbutler_proxy.Text.Order.{text_eq_iff}
use ticketbutler_proxy.Ticketbutler.Types.{Ticket, Order, OrdersResponse}
use ticketbutler_proxy.Aggregate.Summary.{Options}
use ticketbutler_proxy.Aggregate.Summary.Lines.{all_tickets}
use ticketbutler_proxy.Aggregate.Sponsors.{
  Sponsor, sponsor_of, is_wanted, is_seen, company_key, Found, visit, visit_tickets, visit_orders,
  sponsors_of, sponsors,
}
use ticketbutler_proxy.Aggregate.Sponsors.Find.{
  key_of, find, find_ticket, IsDistinct, find-append, IsDistinct-append,
}
use ticketbutler_proxy.Aggregate.Sponsors.Sorted.{
  IsAscending, find-nil, find-sort, sort-IsAscending, sort-IsDistinct,
}
use ticketbutler_proxy.Aggregate.Sponsors.Unique.{ascending_unique}

abbrev is_found : Option Sponsor → Bool
is_found none = false
is_found (some s) = true

-- What was found first stays.
abbrev or_later : Option Sponsor → Option Sponsor → Option Sponsor
or_later none later = later
or_later (some s) later = some s

module _ ⦃case : CaseTable⦄ where
  -- The loop invariant: the keys that were seen are those of the sponsors, once each.
  record IsConsistent (found : Found) : Type 0 where
    marked : (key : Text) → is_seen found.seen key ≡ is_found (find key found.sponsors)
    distinct : IsDistinct found.sponsors

  none_of_unmarked : (o : Option Sponsor) → is_found o ≡ false → o ≡ none
  none_of_unmarked none h = refl
  none_of_unmarked (some s) h = cc

  -- The round that adds a sponsor.
  add-IsConsistent :
      (s : Sponsor) (found : Found)
      → IsConsistent found
      → is_seen found.seen (key_of s) ≡ false
      → IsConsistent (record { seen = key_of s ∷ found.seen; sponsors = found.sponsors ++ s ∷ [] })
  unfolding is_seen
  add-IsConsistent s found h new = record {
    marked = λ key. ground (arith, find-append key found.sponsors s, h.marked key);
    distinct =
        IsDistinct-append found.sponsors s h.distinct
          (none_of_unmarked _ (sym (h.marked (key_of s)) ∙ new));
  }

abbrev nothing_found : Found
nothing_found = record { seen = []; sponsors = [] }

nothing_found-IsConsistent : ⦃case : CaseTable⦄ → IsConsistent nothing_found
unfolding is_seen find
nothing_found-IsConsistent = record { marked = λ key. refl; distinct = tt }

module _ {F : Type 0} ⦃case : CaseTable⦄ (pks : List ℤ) where
  visit-IsConsistent :
      (ticket : Ticket F) (found : Found)
      → IsConsistent found
      → IsConsistent (visit pks ticket found)
  unfolding visit sponsor_of
  visit-IsConsistent ticket found h = elim (Bool-cases (is_wanted pks ticket.ticket_type_pk)) [
    | inr other ↦ rw other h
    | inl wanted ↦
        elim (Bool-cases (
          text_eq (company_key ticket.company_name) []
          || is_seen found.seen (company_key ticket.company_name))) [
            | inl skipped ↦ rw (wanted, skipped) h
            | inr new ↦
                rw (wanted, new) (add-IsConsistent (sponsor_of ticket) found h (ground arith))
          ]
  ]

  find-visit :
      (key : Text) (ticket : Ticket F) (found : Found)
      → key ≢ []
      → IsConsistent found
      → find key (visit pks ticket found).sponsors
        ≡ or_later (find key found.sponsors) (
            if is_wanted pks ticket.ticket_type_pk && text_eq (company_key ticket.company_name) key
            then some (sponsor_of ticket)
            else none)
  unfolding visit sponsor_of
  find-visit key ticket found named h = ground (
    arith,
    find-append key found.sponsors (sponsor_of ticket),
    h.marked key,
    h.marked (company_key ticket.company_name),
    text_eq_iff (company_key ticket.company_name) key,
    text_eq_iff (company_key ticket.company_name) [],
  )

  visit_tickets-IsConsistent :
      (tickets : List (Ticket F)) (found : Found)
      → IsConsistent found
      → IsConsistent (visit_tickets pks tickets found)
  unfolding visit_tickets
  visit_tickets-IsConsistent [] found h = h
  visit_tickets-IsConsistent (ticket ∷ tickets) found h =
      visit_tickets-IsConsistent tickets _ (visit-IsConsistent ticket found h)

  find-visit_tickets :
      (key : Text) (tickets : List (Ticket F)) (found : Found)
      → key ≢ []
      → IsConsistent found
      → find key (visit_tickets pks tickets found).sponsors
        ≡ or_later (find key found.sponsors) (Option.map sponsor_of (find_ticket pks key tickets))
  unfolding visit_tickets find_ticket
  find-visit_tickets key [] found named h = ground arith
  find-visit_tickets key (ticket ∷ tickets) found named h = ground (
    arith,
    find-visit_tickets key tickets (visit pks ticket found) named
        (visit-IsConsistent ticket found h),
    find-visit key ticket found named h,
  )

  visit_tickets-append :
      (xs ys : List (Ticket F)) (found : Found)
      → visit_tickets pks (xs ++ ys) found ≡ visit_tickets pks ys (visit_tickets pks xs found)
  unfolding visit_tickets
  visit_tickets-append [] ys found = refl
  visit_tickets-append (x ∷ xs) ys found = visit_tickets-append xs ys (visit pks x found)

  visit_orders-eq-visit_tickets :
      (orders : List (Order F)) (found : Found)
      → visit_orders pks orders found ≡ visit_tickets pks (all_tickets orders) found
  unfolding visit_orders all_tickets
  visit_orders-eq-visit_tickets [] found = unfold visit_tickets in refl
  visit_orders-eq-visit_tickets (order ∷ orders) found =
      visit_orders-eq-visit_tickets orders (visit_tickets pks order.tickets found)
      ∙ sym (visit_tickets-append order.tickets (all_tickets orders) found)

  -- The sponsors before sorting.
  abbrev collected : List (Order F) → List Sponsor
  collected orders = (visit_orders pks orders nothing_found).sponsors

  collected-eq :
      (orders : List (Order F))
      → collected orders ≡ (visit_tickets pks (all_tickets orders) nothing_found).sponsors
  collected-eq orders =
      ap (λ (found : Found). found.sponsors) (visit_orders-eq-visit_tickets orders nothing_found)

  collected-IsDistinct : (orders : List (Order F)) → IsDistinct (collected orders)
  collected-IsDistinct orders =
      subst (λ ss. IsDistinct ss) (sym (collected-eq orders))
        (visit_tickets-IsConsistent (all_tickets orders) nothing_found
          nothing_found-IsConsistent).distinct

  find-collected :
      (key : Text) (orders : List (Order F))
      → key ≢ []
      → find key (collected orders)
        ≡ Option.map sponsor_of (find_ticket pks key (all_tickets orders))
  find-collected key orders named =
      ap (find key) (collected-eq orders)
      ∙ (find-visit_tickets key (all_tickets orders) nothing_found named nothing_found-IsConsistent
          ∙ rw find-nil)

module _ {F : Type 0} ⦃case : CaseTable⦄ where
  find_ticket-none : (key : Text) (tickets : List (Ticket F)) → find_ticket [] key tickets ≡ none
  unfolding find_ticket is_wanted
  find_ticket-none key [] = refl
  find_ticket-none key (ticket ∷ tickets) = find_ticket-none key tickets

  find-sponsors_of :
      (pks : List ℤ) (orders : List (Order F)) (key : Text)
      → key ≢ []
      → find key (sponsors_of pks orders)
        ≡ Option.map sponsor_of (find_ticket pks key (all_tickets orders))
  unfolding sponsors_of
  find-sponsors_of [] orders key named = rw (find-nil, find_ticket-none)
  find-sponsors_of (pk ∷ pks) orders key named =
      find-sort key _ (collected-IsDistinct (pk ∷ pks) orders)
      ∙ find-collected (pk ∷ pks) key orders named

  sponsors_of-IsAscending :
      (pks : List ℤ) (orders : List (Order F)) → IsAscending (sponsors_of pks orders)
  unfolding sponsors_of
  sponsors_of-IsAscending [] orders = tt
  sponsors_of-IsAscending (pk ∷ pks) orders =
      sort-IsAscending _ (collected-IsDistinct (pk ∷ pks) orders)

  sponsors_of-IsDistinct :
      (pks : List ℤ) (orders : List (Order F)) → IsDistinct (sponsors_of pks orders)
  unfolding sponsors_of
  sponsors_of-IsDistinct [] orders = tt
  sponsors_of-IsDistinct (pk ∷ pks) orders =
      sort-IsDistinct _ (collected-IsDistinct (pk ∷ pks) orders)

  -- Under a company's key, which is not empty, the sponsors hold one exactly where some ticket of a
  -- wanted type has that key, and it is taken from the first such ticket of the payload.
  pub find-sponsors :
      (resp : OrdersResponse F) (opts : Options) (key : Text)
      → key ≢ []
      → find key (sponsors resp opts)
        ≡ Option.map sponsor_of
            (find_ticket opts.sponsor_ticket_type_pks key (all_tickets resp.orders))
  unfolding sponsors
  find-sponsors resp opts = find-sponsors_of opts.sponsor_ticket_type_pks resp.orders

  -- The sponsors stand in strictly ascending order of their lower-case company names, and no two of
  -- them have the same trimmed lower-case company name.
  pub sponsors_sorted :
      (resp : OrdersResponse F) (opts : Options)
      → IsAscending (sponsors resp opts) × IsDistinct (sponsors resp opts)
  unfolding sponsors
  sponsors_sorted resp opts = (
    sponsors_of-IsAscending opts.sponsor_ticket_type_pks resp.orders,
    sponsors_of-IsDistinct opts.sponsor_ticket_type_pks resp.orders,
  )

  -- Whatever sort is used: a list of sponsors that is in strictly ascending order, of different
  -- companies, and that has the same sponsor for each company, is the list that is returned.
  pub sponsors_unique :
      (resp : OrdersResponse F) (opts : Options) (ss : List Sponsor)
      → IsAscending ss
      → IsDistinct ss
      → ((key : Text) → find key ss ≡ find key (sponsors resp opts))
      → ss ≡ sponsors resp opts
  sponsors_unique resp opts ss ascending distinct same =
      ascending_unique ss (sponsors resp opts) ascending (sponsors_sorted resp opts).0 distinct
        (sponsors_sorted resp opts).1 same
