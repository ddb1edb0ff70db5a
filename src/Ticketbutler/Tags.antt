-- ===== src/Ticketbutler/Tags.antt =====
-- internal/ticketbutler/types.go: the tags of the payload's structs, and how an `Amount` and a float64
-- stand in JSON.
pub mod Amount
pub mod Answers
pub mod Lines
pub mod Restore
pub mod Stable
use ticketbutler_proxy.Common.{
  ◌≡◌, Bool, true, false, Option, none, some, List, [], ◌∷◌, if◌then◌else◌,
}
use ticketbutler_proxy.Int.{ℤ, pos}
use ticketbutler_proxy.Float.{Float}
use ticketbutler_proxy.Text.{Text, codes}
use ticketbutler_proxy.Errors.{Result, ok, err, message}
use ticketbutler_proxy.Json.Value.{Json, null, bool, number, text, array, object, token}
use ticketbutler_proxy.Json.Kind.{
  Kind, wrong_type, parsed, text_kind, bool_kind, int_kind, pointer_kind, slice_kind, get_number,
}
use ticketbutler_proxy.Json.Struct.{Field, field, raw_field, struct_kind}
use ticketbutler_proxy.Ticketbutler.Types.{
  Address, Choice, Answer, AnswerCollection, OrderLine, Ticket, Order, OrdersResponse,
  unmarshal_amount, marshal_amount,
}

-- What a string token holds, where nothing in it is escaped.
unfoldable pub drop_last : Text → Text
drop_last [] = []
drop_last (c ∷ []) = []
drop_last (c ∷ d ∷ s) = c ∷ drop_last (d ∷ s)

unfoldable pub string_of_token : Text → Json
unfolding drop_last
string_of_token [] = text []
string_of_token (quote ∷ s) = text (drop_last s)

-- An error of encoding/json for NaN and the infinities.
abbrev pub written : Option Text → Result Json
written none = err (message (codes "json: unsupported value"))
written (some s) = ok (number s)

module _ {F : Type 0} ⦃float : Float F⦄ where
  unfoldable pub put_amount : F → Result Json
  unfolding string_of_token marshal_amount
  put_amount a = ok (string_of_token (marshal_amount a))

  unfoldable pub get_amount : Json → Result F
  get_amount null = parsed (unmarshal_amount (token null))
  get_amount (bool b) = parsed (unmarshal_amount (token (bool b)))
  get_amount (number s) = parsed (unmarshal_amount (token (number s)))
  get_amount (text s) = parsed (unmarshal_amount (token (text s)))
  get_amount (array items) = wrong_type
  get_amount (object fields) = wrong_type

  abbrev pub amount_kind : Kind F
  amount_kind = record { zero_value = float.zero_float; put = put_amount; get = get_amount }

  unfoldable pub put_float : F → Result Json
  put_float x = written (float.print_json x)

  unfoldable pub get_float : Json → Result F
  unfolding get_number
  get_float = get_number float.zero_float float.parse

  abbrev pub float_kind : Kind F
  float_kind = record { zero_value = float.zero_float; put = put_float; get = get_float }

unfoldable pub address_fields : List (Field Address)
address_fields =
    field (codes "first_name") text_kind (λ (x : Address). x.first_name)
      (λ a x. record x { first_name = a })
    ∷ field (codes "last_name") text_kind (λ (x : Address). x.last_name)
        (λ a x. record x { last_name = a })
    ∷ field (codes "email") text_kind (λ (x : Address). x.email) (λ a x. record x { email = a })
    ∷ field (codes "phone") text_kind (λ (x : Address). x.phone) (λ a x. record x { phone = a })
    ∷ field (codes "business_name") text_kind (λ (x : Address). x.business_name)
        (λ a x. record x { business_name = a })
    ∷ []

abbrev pub no_address : Address
no_address = record { first_name = []; last_name = []; email = []; phone = []; business_name = [] }

abbrev pub address_kind : Kind Address
address_kind = struct_kind address_fields no_address

unfoldable pub choice_fields : List (Field Choice)
choice_fields =
    field (codes "choice_uuid") text_kind (λ (x : Choice). x.choice_uuid)
      (λ a x. record x { choice_uuid = a })
    ∷ field (codes "choice_heading") text_kind (λ (x : Choice). x.choice_heading)
        (λ a x. record x { choice_heading = a })
    ∷ []

abbrev pub no_choice : Choice
no_choice = record { choice_uuid = []; choice_heading = [] }

abbrev pub choice_kind : Kind Choice
choice_kind = struct_kind choice_fields no_choice

unfoldable pub answer_fields : List (Field Answer)
answer_fields =
    field (codes "question_heading") text_kind (λ (x : Answer). x.question_heading)
      (λ a x. record x { question_heading = a })
    ∷ field (codes "question_uuid") text_kind (λ (x : Answer). x.question_uuid)
        (λ a x. record x { question_uuid = a })
    ∷ field (codes "variation") text_kind (λ (x : Answer). x.variation)
        (λ a x. record x { variation = a })
    ∷ field (codes "answer_value") text_kind (λ (x : Answer). x.answer_value)
        (λ a x. record x { answer_value = a })
    ∷ field (codes "answered_choices") (slice_kind choice_kind) (λ (x : Answer). x.answered_choices)
        (λ a x. record x { answered_choices = a })
    ∷ []

abbrev pub no_answer : Answer
no_answer = record {
  question_heading = [];
  question_uuid = [];
  variation = [];
  answer_value = [];
  answered_choices = [];
}

abbrev pub answer_kind : Kind Answer
answer_kind = struct_kind answer_fields no_answer

unfoldable pub answer_collection_fields : List (Field AnswerCollection)
answer_collection_fields =
    field (codes "uuid") text_kind (λ (x : AnswerCollection). x.uuid) (λ a x. record x { uuid = a })
    ∷ field (codes "answers") (slice_kind answer_kind) (λ (x : AnswerCollection). x.answers)
        (λ a x. record x { answers = a })
    ∷ []

abbrev pub no_answer_collection : AnswerCollection
no_answer_collection = record { uuid = []; answers = [] }

abbrev pub answer_collection_kind : Kind AnswerCollection
answer_collection_kind = struct_kind answer_collection_fields no_answer_collection

unfoldable pub order_line_fields : {F : Type 0} ⦃float : Float F⦄ → List (Field (OrderLine F))
order_line_fields {F} =
    field (codes "uuid") text_kind (λ (x : OrderLine F). x.uuid) (λ a x. record x { uuid = a })
    ∷ field (codes "title") text_kind (λ (x : OrderLine F). x.title) (λ a x. record x { title = a })
    ∷ field (codes "type") text_kind (λ (x : OrderLine F). x.type) (λ a x. record x { type = a })
    ∷ field (codes "quantity") int_kind (λ (x : OrderLine F). x.quantity)
        (λ a x. record x { quantity = a })
    ∷ field (codes "price") amount_kind (λ (x : OrderLine F). x.price)
        (λ a x. record x { price = a })
    ∷ field (codes "total") amount_kind (λ (x : OrderLine F). x.total)
        (λ a x. record x { total = a })
    ∷ field (codes "discount_total") (pointer_kind amount_kind)
        (λ (x : OrderLine F). x.discount_total) (λ a x. record x { discount_total = a })
    ∷ field (codes "amount_of_refunded_tickets") int_kind
        (λ (x : OrderLine F). x.amount_of_refunded_tickets)
        (λ a x. record x { amount_of_refunded_tickets = a })
    ∷ field (codes "ticket_description") (pointer_kind text_kind)
        (λ (x : OrderLine F). x.ticket_description) (λ a x. record x { ticket_description = a })
    ∷ field (codes "ticket_type_date") text_kind (λ (x : OrderLine F). x.ticket_type_date)
        (λ a x. record x { ticket_type_date = a })
    ∷ field (codes "has_ticket_type_date") bool_kind (λ (x : OrderLine F). x.has_ticket_type_date)
        (λ a x. record x { has_ticket_type_date = a })
    ∷ []

abbrev pub no_order_line : {F : Type 0} ⦃float : Float F⦄ → OrderLine F
no_order_line ⦃float⦄ = record {
  uuid = [];
  title = [];
  type = [];
  quantity = pos 0;
  price = float.zero_float;
  total = float.zero_float;
  discount_total = none;
  amount_of_refunded_tickets = pos 0;
  ticket_description = none;
  ticket_type_date = [];
  has_ticket_type_date = false;
}

abbrev pub order_line_kind : {F : Type 0} ⦃float : Float F⦄ → Kind (OrderLine F)
order_line_kind = struct_kind order_line_fields no_order_line

unfoldable pub ticket_fields : {F : Type 0} ⦃float : Float F⦄ → List (Field (Ticket F))
ticket_fields {F} =
    field (codes "id") int_kind (λ (x : Ticket F). x.id) (λ a x. record x { id = a })
    ∷ field (codes "uuid") text_kind (λ (x : Ticket F). x.uuid) (λ a x. record x { uuid = a })
    ∷ field (codes "purchase_uuid") text_kind (λ (x : Ticket F). x.purchase_uuid)
        (λ a x. record x { purchase_uuid = a })
    ∷ field (codes "ticket_type_pk") int_kind (λ (x : Ticket F). x.ticket_type_pk)
        (λ a x. record x { ticket_type_pk = a })
    ∷ field (codes "ticket_type_name") text_kind (λ (x : Ticket F). x.ticket_type_name)
        (λ a x. record x { ticket_type_name = a })
    ∷ field (codes "first_name") text_kind (λ (x : Ticket F). x.first_name)
        (λ a x. record x { first_name = a })
    ∷ field (codes "last_name") text_kind (λ (x : Ticket F). x.last_name)
        (λ a x. record x { last_name = a })
    ∷ field (codes "full_name") text_kind (λ (x : Ticket F). x.full_name)
        (λ a x. record x { full_name = a })
    ∷ field (codes "email") text_kind (λ (x : Ticket F). x.email) (λ a x. record x { email = a })
    ∷ field (codes "company_name") text_kind (λ (x : Ticket F). x.company_name)
        (λ a x. record x { company_name = a })
    ∷ field (codes "price") amount_kind (λ (x : Ticket F). x.price) (λ a x. record x { price = a })
    ∷ field (codes "price_total") amount_kind (λ (x : Ticket F). x.price_total)
        (λ a x. record x { price_total = a })
    ∷ field (codes "checked_in") bool_kind (λ (x : Ticket F). x.checked_in)
        (λ a x. record x { checked_in = a })
    ∷ field (codes "ticket_refund") bool_kind (λ (x : Ticket F). x.ticket_refund)
        (λ a x. record x { ticket_refund = a })
    ∷ field (codes "ticket_answer_collection") (pointer_kind answer_collection_kind)
        (λ (x : Ticket F). x.answer_collection) (λ a x. record x { answer_collection = a })
    ∷ []

abbrev pub no_ticket : {F : Type 0} ⦃float : Float F⦄ → Ticket F
no_ticket ⦃float⦄ = record {
  id = pos 0;
  uuid = [];
  purchase_uuid = [];
  ticket_type_pk = pos 0;
  ticket_type_name = [];
  first_name = [];
  last_name = [];
  full_name = [];
  email = [];
  company_name = [];
  price = float.zero_float;
  price_total = float.zero_float;
  checked_in = false;
  ticket_refund = false;
  answer_collection = none;
}

abbrev pub ticket_kind : {F : Type 0} ⦃float : Float F⦄ → Kind (Ticket F)
ticket_kind = struct_kind ticket_fields no_ticket

unfoldable pub order_fields : {F : Type 0} ⦃float : Float F⦄ → List (Field (Order F))
order_fields {F} =
    field (codes "uuid") text_kind (λ (x : Order F). x.uuid) (λ a x. record x { uuid = a })
    ∷ field (codes "order_id") text_kind (λ (x : Order F). x.order_id)
        (λ a x. record x { order_id = a })
    ∷ field (codes "currency") text_kind (λ (x : Order F). x.currency)
        (λ a x. record x { currency = a })
    ∷ field (codes "state") text_kind (λ (x : Order F). x.state) (λ a x. record x { state = a })
    ∷ field (codes "date") text_kind (λ (x : Order F). x.date) (λ a x. record x { date = a })
    ∷ field (codes "vat_exempt") bool_kind (λ (x : Order F). x.vat_exempt)
        (λ a x. record x { vat_exempt = a })
    ∷ field (codes "vat_rate") float_kind (λ (x : Order F). x.vat_rate)
        (λ a x. record x { vat_rate = a })
    ∷ field (codes "news_letter") bool_kind (λ (x : Order F). x.news_letter)
        (λ a x. record x { news_letter = a })
    ∷ field (codes "payment_method") text_kind (λ (x : Order F). x.payment_method)
        (λ a x. record x { payment_method = a })
    ∷ field (codes "address") address_kind (λ (x : Order F). x.address)
        (λ a x. record x { address = a })
    ∷ raw_field (codes "discount") (λ (x : Order F). x.discount) (λ a x. record x { discount = a })
    ∷ field (codes "order_lines") (slice_kind order_line_kind) (λ (x : Order F). x.order_lines)
        (λ a x. record x { order_lines = a })
    ∷ field (codes "tickets") (slice_kind ticket_kind) (λ (x : Order F). x.tickets)
        (λ a x. record x { tickets = a })
    ∷ []

abbrev pub no_order : {F : Type 0} ⦃float : Float F⦄ → Order F
no_order ⦃float⦄ = record {
  uuid = [];
  order_id = [];
  currency = [];
  state = [];
  date = [];
  vat_exempt = false;
  vat_rate = float.zero_float;
  news_letter = false;
  payment_method = [];
  address = no_address;
  discount = none;
  order_lines = [];
  tickets = [];
}

abbrev pub order_kind : {F : Type 0} ⦃float : Float F⦄ → Kind (Order F)
order_kind = struct_kind order_fields no_order

unfoldable pub orders_response_fields :
    {F : Type 0} ⦃float : Float F⦄ → List (Field (OrdersResponse F))
orders_response_fields {F} =
    field (codes "uuid") text_kind (λ (x : OrdersResponse F). x.uuid) (λ a x. record x { uuid = a })
    ∷ field (codes "orders") (slice_kind order_kind) (λ (x : OrdersResponse F). x.orders)
        (λ a x. record x { orders = a })
    ∷ []

abbrev pub no_orders_response : {F : Type 0} → OrdersResponse F
no_orders_response = record { uuid = []; orders = [] }

abbrev pub orders_response_kind : {F : Type 0} ⦃float : Float F⦄ → Kind (OrdersResponse F)
orders_response_kind = struct_kind orders_response_fields no_orders_response
