-- ===== src/Legacy/Parity.antt =====
-- testdata/parity/legacy.js against internal/aggregate/summary.go: the rows, the sizes and the
-- merchandise.
use ticketbutler_proxy.Common.{◌≤◌, ◌≡◌, ◌⊎◌, true, false, [], ◌∷◌, All}
use ticketbutler_proxy.Int.{pos}
use ticketbutler_proxy.Float.{Float}
use ticketbutler_proxy.Dict.{Dict}
use ticketbutler_proxy.Text.{Text, CaseTable}
use ticketbutler_proxy.Errors.{ok}
use ticketbutler_proxy.Ticketbutler.Types.{Ticket, Order, answers}
use ticketbutler_proxy.Aggregate.Summary.{TicketGroup, Summary, Options, split_merch, group_of}
use ticketbutler_proxy.Legacy.{Row, Tallies}
use ticketbutler_proxy.Legacy.Runtime.{Js, Raw, Numbers, IsPlain}
use ticketbutler_proxy.Legacy.Amounts.{decode_amount, IsPrice, IsRate, decoded_ticket}
use ticketbutler_proxy.Legacy.Sizes.{counts_of}
use ticketbutler_proxy.Legacy.Objects.{map_values}
use ticketbutler_proxy.Legacy.Names.{hoodie, merch_object}
use ticketbutler_proxy.Legacy.Answers.{IsUsual, count_tshirt}

-- The options that the script has built in.
abbrev pub script_options : Options
script_options = record { merch_name_patterns = hoodie; sponsor_ticket_type_pks = pos 183067 ∷ [] }

abbrev pub row_shown : {F : Type 0} → TicketGroup F → Row F
row_shown group = record { count = group.count; income = group.income_ex_vat }

-- What parity.py compares of a summary: the rows, the sizes and the merchandise.
abbrev pub shown : {F : Type 0} → Summary F → Tallies F
shown s = record {
  ticket_counts = map_values row_shown s.ticket_groups;
  tshirt_sizes = counts_of s.tshirt_sizes;
  merch_counts = merch_object s.merch;
}

-- The VAT rate is a number, where it is used.
abbrev pub IsTaxable : (F : Type 0) ⦃float : Float F⦄ → Order Raw → Type 0
IsTaxable F order = (order.vat_exempt ≡ true) ⊎ ((x : F) × IsRate order.vat_rate x)

module _ {F : Type 0} ⦃float : Float F⦄ (numbers : Numbers F) where
  -- The service decodes the amount that the script reads.
  IsAlike : Raw → Type 0
  IsAlike raw = decode_amount raw ≡ ok (numbers.parse_float raw)

module _ {F : Type 0} ⦃float : Float F⦄ ⦃case : CaseTable⦄ (js : Js) (numbers : Numbers F) where
  -- A ticket that both read alike: its texts are plain and its prices are numbers, none of the keys that it counts
  -- under is an inherited property, and it answers the t-shirt question at most once.
  pub record IsComparable (ticket : Ticket Raw) : Type 0 where
    pub name : IsPlain ticket.ticket_type_name
    pub price : (x : F) × IsPrice ticket.price x
    pub price_total : (x : F) × IsPrice ticket.price_total x
    pub product : js.inherited (split_merch ticket.ticket_type_name hoodie).0 ≡ false
    pub size : js.inherited (split_merch ticket.ticket_type_name hoodie).1 ≡ false
    pub group : js.inherited (group_of script_options (decoded_ticket {F = F} ticket)) ≡ false
    pub usual : All (λ a. IsUsual js a) (answers ticket)
    pub once : count_tshirt (answers ticket) ≤ 1

  abbrev pub IsComparableOrder : Order Raw → Type 0
  IsComparableOrder order = IsTaxable F order × All IsComparable order.tickets
