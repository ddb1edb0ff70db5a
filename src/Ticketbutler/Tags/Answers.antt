-- ===== src/Ticketbutler/Tags/Answers.antt =====
-- The parts of the payload without amounts as they are decoded from what they encode: as they were.
use ticketbutler_proxy.Common.{refl, List, [], ◌∷◌}
use ticketbutler_proxy.Text.{text_functions}
use ticketbutler_proxy.Json.Kind.{IsKind}
use ticketbutler_proxy.Json.Kind.Laws.{text_kind-IsKind, slice_kind_same}
use ticketbutler_proxy.Json.Struct.{find_field}
use ticketbutler_proxy.Json.Struct.Laws.{struct_kind-IsKind, field-IsField}
use ticketbutler_proxy.Ticketbutler.Types.{Address, Choice, Answer, AnswerCollection}
use ticketbutler_proxy.Ticketbutler.Tags.{
  address_fields, no_address, address_kind, choice_fields, no_choice, choice_kind, answer_fields,
  no_answer, answer_kind, answer_collection_fields, no_answer_collection, answer_collection_kind,
}

address_copies : List (Address → Address → Address)
address_copies =
    (λ (x y : Address). record y { first_name = x.first_name })
    ∷ (λ (x y : Address). record y { last_name = x.last_name })
    ∷ (λ (x y : Address). record y { email = x.email })
    ∷ (λ (x y : Address). record y { phone = x.phone })
    ∷ (λ (x y : Address). record y { business_name = x.business_name })
    ∷ []

pub address_kind-IsKind : IsKind address_kind (λ x. x)
unfolding address_fields address_copies find_field text_functions
address_kind-IsKind =
    struct_kind-IsKind address_fields no_address address_copies _
      (
        field-IsField text_kind-IsKind _ _ _,
        (
          field-IsField text_kind-IsKind _ _ _,
          (
            field-IsField text_kind-IsKind _ _ _,
            (field-IsField text_kind-IsKind _ _ _, (field-IsField text_kind-IsKind _ _ _, tt)),
          ),
        ),
      )
      (refl, (refl, (refl, (refl, (refl, tt))))) (λ x. refl)

choice_copies : List (Choice → Choice → Choice)
choice_copies =
    (λ (x y : Choice). record y { choice_uuid = x.choice_uuid })
    ∷ (λ (x y : Choice). record y { choice_heading = x.choice_heading })
    ∷ []

pub choice_kind-IsKind : IsKind choice_kind (λ x. x)
unfolding choice_fields choice_copies find_field text_functions
choice_kind-IsKind =
    struct_kind-IsKind choice_fields no_choice choice_copies _
      (field-IsField text_kind-IsKind _ _ _, (field-IsField text_kind-IsKind _ _ _, tt))
      (refl, (refl, tt)) (λ x. refl)

answer_copies : List (Answer → Answer → Answer)
answer_copies =
    (λ (x y : Answer). record y { question_heading = x.question_heading })
    ∷ (λ (x y : Answer). record y { question_uuid = x.question_uuid })
    ∷ (λ (x y : Answer). record y { variation = x.variation })
    ∷ (λ (x y : Answer). record y { answer_value = x.answer_value })
    ∷ (λ (x y : Answer). record y { answered_choices = x.answered_choices })
    ∷ []

pub answer_kind-IsKind : IsKind answer_kind (λ x. x)
unfolding answer_fields answer_copies find_field text_functions
answer_kind-IsKind =
    struct_kind-IsKind answer_fields no_answer answer_copies _
      (
        field-IsField text_kind-IsKind _ _ _,
        (
          field-IsField text_kind-IsKind _ _ _,
          (
            field-IsField text_kind-IsKind _ _ _,
            (
              field-IsField text_kind-IsKind _ _ _,
              (field-IsField (slice_kind_same choice_kind-IsKind) _ _ _, tt),
            ),
          ),
        ),
      )
      (refl, (refl, (refl, (refl, (refl, tt))))) (λ x. refl)

answer_collection_copies : List (AnswerCollection → AnswerCollection → AnswerCollection)
answer_collection_copies =
    (λ (x y : AnswerCollection). record y { uuid = x.uuid })
    ∷ (λ (x y : AnswerCollection). record y { answers = x.answers })
    ∷ []

pub answer_collection_kind-IsKind : IsKind answer_collection_kind (λ x. x)
unfolding answer_collection_fields answer_collection_copies find_field text_functions
answer_collection_kind-IsKind =
    struct_kind-IsKind answer_collection_fields no_answer_collection answer_collection_copies _
      (
        field-IsField text_kind-IsKind _ _ _,
        (field-IsField (slice_kind_same answer_kind-IsKind) _ _ _, tt),
      )
      (refl, (refl, tt)) (λ x. refl)

-- An amount is restored to the cent, and all else as it was.
