-- ===== src/Ticketbutler/Types.antt =====
-- internal/ticketbutler/types.go: the orders payload. `F` stands for float64; a pointer is an
-- `Option`, and a nil slice is the empty list.
use ticketbutler_proxy.Common.{
  Bool, ◌||◌, Option, none, some, List, [], ◌∷◌, ◌++◌, ◌==◌, if◌then◌else◌,
}
use ticketbutler_proxy.Int.{ℤ}
use ticketbutler_proxy.Float.{Float}
use ticketbutler_proxy.Json.Value.{Json}
use ticketbutler_proxy.Text.{Text, codes, text_eq, trim_space, trim_right}

pub record Address : Type 0 where
  pub first_name : Text
  pub last_name : Text
  pub email : Text
  pub phone : Text
  pub business_name : Text

pub record Choice : Type 0 where
  pub choice_uuid : Text
  pub choice_heading : Text

pub record Answer : Type 0 where
  pub question_heading : Text
  pub question_uuid : Text
  pub variation : Text
  pub answer_value : Text
  pub answered_choices : List Choice

pub record AnswerCollection : Type 0 where
  pub uuid : Text
  pub answers : List Answer

pub record OrderLine (F : Type 0) : Type 0 where
  pub uuid : Text
  pub title : Text
  pub type : Text
  pub quantity : ℤ
  pub price : F
  pub total : F
  pub discount_total : Option F
  pub amount_of_refunded_tickets : ℤ
  pub ticket_description : Option Text
  pub ticket_type_date : Text
  pub has_ticket_type_date : Bool

pub record Ticket (F : Type 0) : Type 0 where
  pub id : ℤ
  pub uuid : Text
  pub purchase_uuid : Text
  pub ticket_type_pk : ℤ
  pub ticket_type_name : Text
  pub first_name : Text
  pub last_name : Text
  pub full_name : Text
  pub email : Text
  pub company_name : Text
  pub price : F
  pub price_total : F
  pub checked_in : Bool
  pub ticket_refund : Bool
  pub answer_collection : Option AnswerCollection

pub record Order (F : Type 0) : Type 0 where
  pub uuid : Text
  pub order_id : Text
  pub currency : Text
  pub state : Text
  pub date : Text
  pub vat_exempt : Bool
  pub vat_rate : F
  pub news_letter : Bool
  pub payment_method : Text
  pub address : Address
  -- `json.RawMessage`, and none for no bytes
  pub discount : Option Json
  pub order_lines : List (OrderLine F)
  pub tickets : List (Ticket F)

pub record OrdersResponse (F : Type 0) : Type 0 where
  pub uuid : Text
  pub orders : List (Order F)

heading_of_first : List Choice → Text
heading_of_first [] = []
heading_of_first (c ∷ cs) = c.choice_heading

unfoldable pub first_choice : Answer → Text
unfolding heading_of_first
first_choice a = heading_of_first a.answered_choices

unfoldable pub answers : {F : Type 0} → Ticket F → List Answer
answers t = elim t.answer_collection [ none ↦ [] | some c ↦ c.answers ]

-- The loop of `AnswerFor`.
unfoldable pub find_answer : Text → List Answer → Option Answer
find_answer heading [] = none
find_answer heading (a ∷ rest) =
    if text_eq (trim_space a.question_heading) heading then some a else find_answer heading rest

-- `none` is the result `Answer{}, false`.
unfoldable pub answer_for : {F : Type 0} → Ticket F → Text → Option Answer
unfolding find_answer answers
answer_for t heading = find_answer heading (answers t)

-- `strings.Trim(s, "\"")`: the quotes at both ends, however many.
unfoldable pub trim_left_quotes : Text → Text
trim_left_quotes [] = []
trim_left_quotes (c ∷ s) = if c == b'"' then trim_left_quotes s else c ∷ s

-- `none` is the error of `strconv.ParseFloat`.
unfoldable pub unmarshal_amount : {F : Type 0} ⦃float : Float F⦄ → Text → Option F
unmarshal_amount ⦃float⦄ b =
    let s = trim_right (trim_left_quotes b) b'"' in
    if text_eq s [] || text_eq s (codes "null") then some float.zero_float else float.parse s

unfoldable pub marshal_amount : {F : Type 0} ⦃float : Float F⦄ → F → Text
marshal_amount ⦃float⦄ a = b'"' ∷ (float.format_cents a ++ b'"' ∷ [])
