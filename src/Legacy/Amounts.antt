-- ===== src/Legacy/Amounts.antt =====
-- internal/ticketbutler/types.go for testdata/parity/legacy.js: the payload of the script as the service
-- decodes it.
use ticketbutler_proxy.Common.{
  refl, ap, ◌∙◌, [], ◌∷◌, ◌++◌, All, ◌≡◌, true, false, arith, inl, inr, ◌⊎◌, none, some, map,
}
use mathlib.Core.Option
use ticketbutler_proxy.Float.{Float}
use ticketbutler_proxy.Errors.{Result, ok, err}
use ticketbutler_proxy.Ticketbutler.Types.{OrderLine, Ticket, Order, OrdersResponse}
use ticketbutler_proxy.Ticketbutler.Tags.{get_amount, get_float}
use ticketbutler_proxy.Legacy.Runtime.{Raw, Numbers, is_decimal, IsDecimal, IsNumbers}
use ticketbutler_proxy.Json.Value.{text, number, token}
use ticketbutler_proxy.Json.Kind.{get_number}
use ticketbutler_proxy.Int.{pos}
use ticketbutler_proxy.Text.{Text, codes, text_eq, trim_right}
use ticketbutler_proxy.Text.Order.{text_eq_iff}
use ticketbutler_proxy.Ticketbutler.Types.{trim_left_quotes, unmarshal_amount}
use ticketbutler_proxy.Ticketbutler.Tags.Amount.{Plain, escape-Plain, trim_quotes, trim_right-Plain}

module _ {F : Type 0} ⦃float : Float F⦄ where
  -- What encoding/json puts into an `Amount` and into the `float64` of the VAT rate, which stay zero where the
  -- property is missing.
  unfoldable pub decode_amount : Raw → Result F
  decode_amount none = ok float.zero_float
  decode_amount (some j) = get_amount j

  unfoldable pub decode_rate : Raw → Result F
  decode_rate none = ok float.zero_float
  decode_rate (some j) = get_float j

  -- An amount that is refused makes the service refuse the payload; no theorem is about the zero that stands
  -- for it here.
  abbrev pub value_of : Result F → F
  value_of (ok x) = x
  value_of (err e) = float.zero_float

  abbrev pub decoded_line : OrderLine Raw → OrderLine F
  decoded_line line = record {
    uuid = line.uuid;
    title = line.title;
    type = line.type;
    quantity = line.quantity;
    price = value_of (decode_amount line.price);
    total = value_of (decode_amount line.total);
    discount_total = Option.map (λ a. value_of (decode_amount a)) line.discount_total;
    amount_of_refunded_tickets = line.amount_of_refunded_tickets;
    ticket_description = line.ticket_description;
    ticket_type_date = line.ticket_type_date;
    has_ticket_type_date = line.has_ticket_type_date;
  }

  abbrev pub decoded_ticket : Ticket Raw → Ticket F
  decoded_ticket ticket = record {
    id = ticket.id;
    uuid = ticket.uuid;
    purchase_uuid = ticket.purchase_uuid;
    ticket_type_pk = ticket.ticket_type_pk;
    ticket_type_name = ticket.ticket_type_name;
    first_name = ticket.first_name;
    last_name = ticket.last_name;
    full_name = ticket.full_name;
    email = ticket.email;
    company_name = ticket.company_name;
    price = value_of (decode_amount ticket.price);
    price_total = value_of (decode_amount ticket.price_total);
    checked_in = ticket.checked_in;
    ticket_refund = ticket.ticket_refund;
    answer_collection = ticket.answer_collection;
  }

  abbrev pub decoded_order : Order Raw → Order F
  decoded_order order = record {
    uuid = order.uuid;
    order_id = order.order_id;
    currency = order.currency;
    state = order.state;
    date = order.date;
    vat_exempt = order.vat_exempt;
    vat_rate = value_of (decode_rate order.vat_rate);
    news_letter = order.news_letter;
    payment_method = order.payment_method;
    address = order.address;
    discount = order.discount;
    order_lines = map decoded_line order.order_lines;
    tickets = map decoded_ticket order.tickets;
  }

  abbrev pub decoded_orders : OrdersResponse Raw → OrdersResponse F
  decoded_orders resp = record { uuid = resp.uuid; orders = map decoded_order resp.orders }

-- A price as TicketButler sends it, such as "1499.00", or a bare number; and a VAT rate, a bare number.
abbrev pub IsPrice : {F : Type 0} ⦃float : Float F⦄ → Raw → F → Type 0
IsPrice ⦃float⦄ raw x =
    (s : Text) × IsDecimal s
    × (float.parse s ≡ some x)
    × ((raw ≡ some (text s)) ⊎ (raw ≡ some (number s)))

abbrev pub IsRate : {F : Type 0} ⦃float : Float F⦄ → Raw → F → Type 0
IsRate ⦃float⦄ raw x = (s : Text) × IsDecimal s × (float.parse s ≡ some x) × (raw ≡ some (number s))

IsDecimal-Plain : (s : Text) → All (λ c. is_decimal c ≡ true) s → Plain s
unfolding is_decimal
IsDecimal-Plain [] h = tt
IsDecimal-Plain (c ∷ s) (p, h) = ((ground (arith, p), ground (arith, p)), IsDecimal-Plain s h)

IsDecimal-ne-null : (s : Text) → All (λ c. is_decimal c ≡ true) s → text_eq s (codes "null") ≡ false
unfolding is_decimal text_eq
IsDecimal-ne-null [] h = refl
IsDecimal-ne-null (c ∷ s) (p, h) = ground (arith, p)

trim_left-decimal : (s : Text) → All (λ c. is_decimal c ≡ true) s → trim_left_quotes s ≡ s
unfolding trim_left_quotes is_decimal
trim_left-decimal [] h = refl
trim_left-decimal (c ∷ s) (p, h) = ground (arith, p)

module _ {F : Type 0} ⦃float : Float F⦄ where
  unmarshal_trimmed :
      (b s : Text) (x : F)
      → trim_right (trim_left_quotes b) b'"' ≡ s
      → IsDecimal s
      → float.parse s ≡ some x
      → unmarshal_amount b ≡ some x
  unfolding unmarshal_amount
  unmarshal_trimmed b s x trimmed (full, digits) read =
      let not_empty : text_eq s [] ≡ false = ground (arith, text_eq_iff s [], full) in
      rw trimmed (rw (not_empty, IsDecimal-ne-null s digits) read)

  get_amount-text :
      (s : Text) (x : F) → IsDecimal s → float.parse s ≡ some x → get_amount (text s) ≡ ok x
  unfolding get_amount token
  get_amount-text s x (full, digits) read =
      let plain = IsDecimal-Plain s digits in
      rw (escape-Plain s plain) (
        rw
          (unmarshal_trimmed (b'"' ∷ (s ++ b'"' ∷ [])) s x (trim_quotes s plain full) (full, digits)
            read)
          refl)

  get_amount-number :
      (s : Text) (x : F) → IsDecimal s → float.parse s ≡ some x → get_amount (number s) ≡ ok x
  unfolding get_amount token
  get_amount-number s x (full, digits) read =
      let trimmed =
        ap (λ t. trim_right t b'"') (trim_left-decimal s digits)
        ∙ trim_right-Plain s (IsDecimal-Plain s digits) in
      rw (unmarshal_trimmed s s x trimmed (full, digits) read) refl

  module _ (numbers : Numbers F) (law : IsNumbers numbers) where
    -- The service decodes the amount that the script reads.
    pub IsPrice-parse_float :
        (raw : Raw) (x : F) → IsPrice raw x → decode_amount raw ≡ ok (numbers.parse_float raw)
    unfolding decode_amount
    IsPrice-parse_float raw x (s, decimal, read, inl quoted) =
        rw (quoted, law.parse_float-text s x decimal read, get_amount-text s x decimal read) refl
    IsPrice-parse_float raw x (s, decimal, read, inr bare) =
        rw (bare, law.parse_float-number s x decimal read, get_amount-number s x decimal read) refl

    pub IsRate-one_plus :
        (raw : Raw) (x : F)
        → IsRate raw x
        → numbers.one_plus raw ≡ float.add (float.of_int (pos 1)) (value_of (decode_rate raw))
    unfolding decode_rate get_float get_number
    IsRate-one_plus raw x (s, decimal, read, bare) =
        rw (bare, law.one_plus-number s x decimal read, read) refl
