-- ===== src/Aggregate/Summary/Merch.antt =====
-- internal/aggregate/summary.go: the merchandise of a summary, by product.
use ticketbutler_proxy.Common.{
  ◌≡◌, refl, sym, ap, ◌∙◌, Bool, Option, none, some, List, [], ◌∷◌, ◌++◌, arith,
}
use mathlib.Core.List.{append_assoc}
use ticketbutler_proxy.Float.{Float}
use ticketbutler_proxy.Dict.{Dict, lookup, index, lookup-insert}
use ticketbutler_proxy.Text.{Text, CaseTable}
use ticketbutler_proxy.Text.Order.{text_eq_iff}
use ticketbutler_proxy.Ticketbutler.Types.{Ticket, Order, OrdersResponse}
use ticketbutler_proxy.Aggregate.Sizes.{SizeCounts, no_sizes, add_size}
use ticketbutler_proxy.Aggregate.Sizes.Tally.{add_sizes, add_sizes-eq-tally_from}
use ticketbutler_proxy.Aggregate.Summary.{
  Summary, Options, empty_summary, add_merch, count_ticket, count_tickets, count_order,
  count_orders, summarise,
}
use ticketbutler_proxy.Aggregate.Summary.Lines.{all_tickets, size_in, product_sizes, tally_of}

-- A tally that may be missing, with more sizes.
gather : Option SizeCounts → List Text → Option SizeCounts
gather row [] = row
gather none (x ∷ xs) = some (add_sizes no_sizes (x ∷ xs))
gather (some row) (x ∷ xs) = some (add_sizes row (x ∷ xs))

gather-append :
    (row : Option SizeCounts) (xs ys : List Text)
    → gather row (xs ++ ys) ≡ gather (gather row xs) ys
unfolding gather add_sizes
gather-append row [] ys = refl
gather-append none (x ∷ []) [] = refl
gather-append none (x ∷ []) (y ∷ ys) = refl
gather-append none (x ∷ x' ∷ xs) ys = gather-append (some (add_size no_sizes x).0) (x' ∷ xs) ys
gather-append (some row) (x ∷ []) [] = refl
gather-append (some row) (x ∷ []) (y ∷ ys) = refl
gather-append (some row) (x ∷ x' ∷ xs) ys = gather-append (some (add_size row x).0) (x' ∷ xs) ys

gather-none : (xs : List Text) → gather none xs ≡ tally_of xs
unfolding gather
gather-none [] = refl
gather-none (x ∷ xs) = ap some (add_sizes-eq-tally_from no_sizes (x ∷ xs))

lookup-add_merch :
    (split : Text × Text × Bool) (product : Text) (merch : Dict SizeCounts)
    → lookup product (add_merch split merch) ≡ gather (lookup product merch) (size_in split product)
unfolding add_merch size_in gather add_sizes
lookup-add_merch (name, size, is_merch) product merch = ground (
  arith,
  lookup-insert name product (add_size (index no_sizes name merch) size).0 merch,
  text_eq_iff name product,
)

module _ {F : Type 0} ⦃float : Float F⦄ ⦃case : CaseTable⦄ (opts : Options) (product : Text) where
  lookup-count_tickets :
      (order : Order F) (tickets : List (Ticket F)) (s : Summary F)
      → lookup product (count_tickets opts order tickets s).merch
        ≡ gather (lookup product s.merch) (product_sizes opts product tickets)
  unfolding count_tickets product_sizes count_ticket gather
  lookup-count_tickets order [] s = refl
  lookup-count_tickets order (ticket ∷ tickets) s =
      lookup-count_tickets order tickets (count_ticket opts order ticket s)
      ∙ rw lookup-add_merch (sym (gather-append (lookup product s.merch) (size_in _ product) _))

  pub product_sizes-append :
      (xs ys : List (Ticket F))
      → product_sizes opts product (xs ++ ys)
        ≡ product_sizes opts product xs ++ product_sizes opts product ys
  unfolding product_sizes
  product_sizes-append [] ys = refl
  product_sizes-append (x ∷ xs) ys = rw (product_sizes-append xs ys) (simp append_assoc)

  lookup-count_orders :
      (orders : List (Order F)) (s : Summary F)
      → lookup product (count_orders opts orders s).merch
        ≡ gather (lookup product s.merch) (product_sizes opts product (all_tickets orders))
  unfolding count_orders all_tickets gather count_order
  lookup-count_orders [] s = unfold product_sizes in refl
  lookup-count_orders (order ∷ orders) s =
      lookup-count_orders orders (count_order opts order s)
      ∙ rw (lookup-count_tickets order order.tickets _, product_sizes-append order.tickets)
          (sym (gather-append (lookup product s.merch) _ _))

-- A product is in `merch` where the name of some merchandise ticket gives it with a size; its tally
-- then counts, for each known size, the tickets of that product with that size.
pub lookup-merch :
    {F : Type 0} ⦃float : Float F⦄ ⦃case : CaseTable⦄ (resp : OrdersResponse F) (opts : Options)
    (product : Text)
    → lookup product (summarise resp opts).merch
      ≡ tally_of (product_sizes opts product (all_tickets resp.orders))
unfolding summarise lookup
lookup-merch resp opts product =
    lookup-count_orders opts product resp.orders (empty_summary resp.uuid)
    ∙ gather-none (product_sizes opts product (all_tickets resp.orders))
