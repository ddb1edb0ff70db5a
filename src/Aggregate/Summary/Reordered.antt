-- ===== src/Aggregate/Summary/Reordered.antt =====
-- internal/aggregate/summary.go: the counts of a summary, and the order of the payload's orders.
use mathlib.Core.Option
use mathlib.Core.Path.{ap₂}
use mathlib.Core.Logic.{∥∥₁_elim}
use mathlib.Core.List.{Perm, Permᴰ}
use native.Mathlib.Nat.{ℕ_set}
use ticketbutler_proxy.Common.{
  ℕ, ◌+◌, ◌≡◌, refl, sym, ap, ◌∙◌, Option, some, List, [], ◌∷◌, ◌++◌, length, length-append, arith,
  if◌then◌else◌,
}
use ticketbutler_proxy.Float.{Float}
use ticketbutler_proxy.Dict.{lookup, index}
use ticketbutler_proxy.Text.{Text, codes, text_eq, CaseTable}
use ticketbutler_proxy.Ticketbutler.Types.{Order, OrdersResponse}
use ticketbutler_proxy.Aggregate.Sizes.Tally.{count, tally}
use ticketbutler_proxy.Aggregate.Summary.{TicketGroup, Summary, Options, summarise}
use ticketbutler_proxy.Aggregate.Summary.Lines.{
  all_tickets, orders_in_state, tshirt_answers, incomes_of, incomes, row_of, product_sizes,
  tally_of,
}
use ticketbutler_proxy.Aggregate.Summary.Groups.{lookup-ticket_groups}
use ticketbutler_proxy.Aggregate.Summary.Merch.{product_sizes-append, lookup-merch}
use ticketbutler_proxy.Aggregate.Summary.Totals.{
  tshirt_answers-append, summarise-counts, summarise-orders_by_state, summarise-tshirt_sizes,
}

module _ {A : Type 0} (weight : A → ℕ) where
  -- The weights of a list together.
  total : List A → ℕ
  total [] = 0
  total (x ∷ xs) = weight x + total xs

  total-Permᴰ : {xs ys : List A} → Permᴰ xs ys → total xs ≡ total ys
  unfolding total
  total-Permᴰ Permᴰ.nil = refl
  total-Permᴰ (Permᴰ.cons e p) = omega (arith, ap weight e, total-Permᴰ p)
  total-Permᴰ (Permᴰ.swap e f) = omega (arith, ap weight e, ap weight f)
  total-Permᴰ (Permᴰ.trans p q) = total-Permᴰ p ∙ total-Permᴰ q

  total-Perm : {xs ys : List A} → Perm xs ys → total xs ≡ total ys
  total-Perm p = ∥∥₁_elim p (ℕ_set _ _) total-Permᴰ

-- What is added up over a list is the same after a permutation.
same_of_total :
    {A : Type 0} (f : List A → ℕ) (weight : A → ℕ) {xs ys : List A}
    → ((zs : List A) → f zs ≡ total weight zs)
    → Perm xs ys
    → f xs ≡ f ys
same_of_total f weight {xs} {ys} h p = h xs ∙ total-Perm weight p ∙ sym (h ys)

length-total : {A : Type 0} (xs : List A) → length xs ≡ total (λ (x : A). 1) xs
unfolding total
length-total [] = refl
length-total (x ∷ xs) = omega (arith, length-total xs)

count-append :
    (size : Text) (xs ys : List Text) → count size (xs ++ ys) ≡ count size xs + count size ys
unfolding count
count-append size [] ys = omega arith
count-append size (x ∷ xs) ys = ground (arith, count-append size xs ys)

module _ {F : Type 0} where
  length-all_tickets :
      (orders : List (Order F))
      → length (all_tickets orders) ≡ total (λ (o : Order F). length o.tickets) orders
  unfolding all_tickets total
  length-all_tickets [] = refl
  length-all_tickets (o ∷ orders) =
      length-append o.tickets (all_tickets orders) ∙ omega (arith, length-all_tickets orders)

  in_state : Text → Order F → ℕ
  in_state state o = if text_eq o.state state then 1 else 0

  orders_in_state-total :
      (state : Text) (orders : List (Order F))
      → orders_in_state state orders ≡ total (in_state state) orders
  unfolding orders_in_state total in_state
  orders_in_state-total state [] = refl
  orders_in_state-total state (o ∷ orders) = ground (arith, orders_in_state-total state orders)

  module _ ⦃case : CaseTable⦄ (size : Text) where
    count-tshirts :
        (orders : List (Order F))
        → count size (tshirt_answers (all_tickets orders))
          ≡ total (λ (o : Order F). count size (tshirt_answers o.tickets)) orders
    unfolding all_tickets total
    count-tshirts [] = unfold tshirt_answers count in refl
    count-tshirts (o ∷ orders) =
        ap (count size) (tshirt_answers-append o.tickets (all_tickets orders))
        ∙ count-append size (tshirt_answers o.tickets) _
        ∙ omega (arith, count-tshirts orders)

  module _ ⦃float : Float F⦄ ⦃case : CaseTable⦄ (opts : Options) (product : Text) where
    count-products :
        (size : Text) (orders : List (Order F))
        → count size (product_sizes opts product (all_tickets orders))
          ≡ total (λ (o : Order F). count size (product_sizes opts product o.tickets)) orders
    unfolding all_tickets total
    count-products size [] = unfold product_sizes count in refl
    count-products size (o ∷ orders) =
        ap (count size) (product_sizes-append opts product o.tickets (all_tickets orders))
        ∙ count-append size (product_sizes opts product o.tickets) _
        ∙ omega (arith, count-products size orders)

    length-products :
        (orders : List (Order F))
        → length (product_sizes opts product (all_tickets orders))
          ≡ total (λ (o : Order F). length (product_sizes opts product o.tickets)) orders
    unfolding all_tickets total
    length-products [] = unfold product_sizes in refl
    length-products (o ∷ orders) =
        ap length (product_sizes-append opts product o.tickets (all_tickets orders))
        ∙ length-append (product_sizes opts product o.tickets) _
        ∙ omega (arith, length-products orders)

module _ {F : Type 0} ⦃float : Float F⦄ ⦃case : CaseTable⦄ (opts : Options) where
  length-incomes :
      (group : Text) (orders : List (Order F))
      → length (incomes opts group orders)
        ≡ total (λ (o : Order F). length (incomes_of opts group o o.tickets)) orders
  unfolding incomes total
  length-incomes group [] = refl
  length-incomes group (o ∷ orders) =
      length-append (incomes_of opts group o o.tickets) (incomes opts group orders)
      ∙ omega (arith, length-incomes group orders)

-- The tickets that a row counts, where there is a row.
abbrev pub row_count : {F : Type 0} → Option (TicketGroup F) → Option ℕ
row_count row = Option.map (λ (r : TicketGroup _). r.count) row

same_row :
    {F : Type 0} ⦃float : Float F⦄ (xs ys : List F)
    → length xs ≡ length ys
    → row_count (row_of xs) ≡ row_count (row_of ys)
same_row [] [] e = refl
same_row [] (y ∷ ys) e = absurd (omega (arith, e))
same_row (x ∷ xs) [] e = absurd (omega (arith, e))
same_row (x ∷ xs) (y ∷ ys) e = ap some e

same_tally :
    (xs ys : List Text) → ((size : Text) → count size xs ≡ count size ys) → tally xs ≡ tally ys
same_tally xs ys h = ground (
  arith,
  h (codes "small"),
  h (codes "medium"),
  h (codes "large"),
  h (codes "xl"),
  h (codes "2xl"),
  h (codes "3xl"),
)

same_tally_of :
    (xs ys : List Text) → length xs ≡ length ys → tally xs ≡ tally ys → tally_of xs ≡ tally_of ys
same_tally_of [] [] e h = refl
same_tally_of [] (y ∷ ys) e h = absurd (omega (arith, e))
same_tally_of (x ∷ xs) [] e h = absurd (omega (arith, e))
same_tally_of (x ∷ xs) (y ∷ ys) e h = ap some h

-- Two summaries count the same orders and tickets, the same tickets in a group, the same orders in a
-- state, the same answers to the t-shirt question, and the same sizes of a product.
abbrev pub SameNumbers : {F : Type 0} → Text → Text → Text → Summary F → Summary F → Type 0
SameNumbers group state product s t =
    (s.counts ≡ t.counts)
    × (row_count (lookup group s.ticket_groups) ≡ row_count (lookup group t.ticket_groups))
    × (index 0 state s.orders_by_state ≡ index 0 state t.orders_by_state)
    × (s.tshirt_sizes ≡ t.tshirt_sizes)
    × (lookup product s.merch ≡ lookup product t.merch)

-- Where two payloads list the same orders in different orders, their summaries have the same counts: of
-- orders and tickets, of the tickets in each group, of the orders in each state, of the answers to the
-- t-shirt question, and of each product's sizes.
pub summarise-perm :
    {F : Type 0} ⦃float : Float F⦄ ⦃case : CaseTable⦄ (resp other : OrdersResponse F)
    (opts : Options) (group state product : Text)
    → Perm resp.orders other.orders
    → SameNumbers group state product (summarise resp opts) (summarise other opts)
summarise-perm resp other opts group state product p = (
  summarise-counts resp opts
      ∙ ap₂ (λ n m. record { orders = n; tickets = m }) (same_of_total length _ length-total p)
          (same_of_total (λ orders. length (all_tickets orders)) _ length-all_tickets p)
      ∙ sym (summarise-counts other opts),
  ap row_count (lookup-ticket_groups resp opts group)
      ∙ same_row _ _ (
          same_of_total (λ orders. length (incomes opts group orders)) _ (length-incomes opts group)
            p)
      ∙ sym (ap row_count (lookup-ticket_groups other opts group)),
  summarise-orders_by_state resp opts state
      ∙ same_of_total (orders_in_state state) _ (orders_in_state-total state) p
      ∙ sym (summarise-orders_by_state other opts state),
  summarise-tshirt_sizes resp opts
      ∙ same_tally _ _ (λ size.
        same_of_total (λ orders. count size (tshirt_answers (all_tickets orders))) _
          (count-tshirts size) p)
      ∙ sym (summarise-tshirt_sizes other opts),
  lookup-merch resp opts product
      ∙ same_tally_of _ _
          (same_of_total (λ orders. length (product_sizes opts product (all_tickets orders))) _
            (length-products opts product) p)
          (same_tally _ _ (λ size.
            same_of_total (λ orders. count size (product_sizes opts product (all_tickets orders))) _
              (count-products opts product size) p))
      ∙ sym (lookup-merch other opts product),
)
