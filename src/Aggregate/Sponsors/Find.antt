-- ===== src/Aggregate/Sponsors/Find.antt =====
-- The sponsor of a company among sponsors, and the ticket of a company among tickets.
use ticketbutler_proxy.Common.{
  ◌≡◌, refl, ◌&&◌, Option, none, some, List, [], ◌∷◌, ◌++◌, arith, if◌then◌else◌,
}
use ticketbutler_proxy.Int.{ℤ}
use ticketbutler_proxy.Text.{Text, text_eq, CaseTable}
use ticketbutler_proxy.Text.Order.{text_eq_iff}
use ticketbutler_proxy.Ticketbutler.Types.{Ticket}
use ticketbutler_proxy.Aggregate.Sponsors.{Sponsor, is_wanted, company_key}

module _ ⦃case : CaseTable⦄ where
  abbrev pub key_of : Sponsor → Text
  key_of s = company_key s.company_name

  unfoldable pub find : Text → List Sponsor → Option Sponsor
  find key [] = none
  find key (s ∷ ss) = if text_eq (key_of s) key then some s else find key ss

  -- The first ticket of a wanted type with this company.
  unfoldable pub find_ticket : {F : Type 0} → List ℤ → Text → List (Ticket F) → Option (Ticket F)
  find_ticket pks key [] = none
  find_ticket pks key (ticket ∷ tickets) =
      if is_wanted pks ticket.ticket_type_pk && text_eq (company_key ticket.company_name) key
      then some ticket
      else find_ticket pks key tickets

  -- No two sponsors have one key.
  abbrev pub IsDistinct : List Sponsor → Type 0
  IsDistinct [] = Unit
  IsDistinct (s ∷ ss) = (find (key_of s) ss ≡ none) × IsDistinct ss

  pub find-append :
      (key : Text) (ss : List Sponsor) (t : Sponsor)
      → find key (ss ++ t ∷ []) ≡ elim (find key ss) [
        | none ↦ if text_eq (key_of t) key then some t else none
        | some s ↦ some s
      ]
  unfolding find
  find-append key [] t = refl
  find-append key (s ∷ ss) t = ground (arith, find-append key ss t)

  pub IsDistinct-append :
      (ss : List Sponsor) (t : Sponsor)
      → IsDistinct ss
      → find (key_of t) ss ≡ none
      → IsDistinct (ss ++ t ∷ [])
  unfolding find
  IsDistinct-append [] t h new = (refl, tt)
  IsDistinct-append (s ∷ ss) t (apart, h) new = ground (
    arith,
    find-append (key_of s) ss t,
    text_eq_iff (key_of s) (key_of t),
    text_eq_iff (key_of t) (key_of s),
    IsDistinct-append ss t h,
  )
