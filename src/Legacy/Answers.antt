-- ===== src/Legacy/Answers.antt =====
-- testdata/parity/legacy.js: the answers to the t-shirt question. The script counts every such answer
-- of a ticket, `AnswerFor` finds the first.
use ticketbutler_proxy.Common.{
  ℕ, ◌+◌, ◌≤◌, ◌≡◌, refl, sym, ap, ◌∙◌, false, none, some, List, [], ◌∷◌, arith, inl, inr, All,
  Bool, Bool-cases, if◌then◌else◌,
}
use mathlib.Core.Path.{subst}
use ticketbutler_proxy.Text.{text_eq, trim_left, trim_end, trim_space, CaseTable}
use ticketbutler_proxy.Text.Order.{text_eq_iff}
use ticketbutler_proxy.Ticketbutler.Types.{
  Choice, Answer, Ticket, first_choice, find_answer, answers, answer_for,
}
use ticketbutler_proxy.Aggregate.Sizes.{SizeCounts, add_size, normalize_size}
use ticketbutler_proxy.Aggregate.Summary.{tshirt_question, add_tshirt}
use ticketbutler_proxy.Legacy.{bump, count_choice, count_answer, count_answers, count_collection}
use ticketbutler_proxy.Legacy.Runtime.{Js, IsPlain, IsJs}
use ticketbutler_proxy.Legacy.Sizes.{counts_of, normalize_size-nil, script_size_lem, bump-add_size}

-- The heading of an answer, trimmed, is that of the t-shirt question.
abbrev answers_tshirt : Answer → Bool
answers_tshirt answer = text_eq (trim_space answer.question_heading) tshirt_question

-- How many of the answers are answers to the t-shirt question.
unfoldable pub count_tshirt : List Answer → ℕ
count_tshirt [] = 0
count_tshirt (answer ∷ rest) =
    if answers_tshirt answer then count_tshirt rest + 1 else count_tshirt rest

-- The texts of an answer are plain, and the size that it names is no inherited property.
pub record IsUsual ⦃case : CaseTable⦄ (js : Js) (answer : Answer) : Type 0 where
  pub heading : IsPlain answer.question_heading
  pub choices : All (λ (c : Choice). IsPlain c.choice_heading) answer.answered_choices
  pub size : js.inherited (normalize_size (first_choice answer)) ≡ false

not_tshirt-nil : text_eq (trim_space []) tshirt_question ≡ false
unfolding trim_space trim_left trim_end text_eq
not_tshirt-nil = refl

add_size-nil : (s : SizeCounts) → (add_size s []).0 ≡ s
unfolding add_size text_eq
add_size-nil s = refl

first_choice-nil : (answer : Answer) → answer.answered_choices ≡ [] → first_choice answer ≡ []
unfolding first_choice
first_choice-nil answer e = rw e refl

first_choice-cons :
    (answer : Answer) {choice : Choice} {choices : List Choice}
    → answer.answered_choices ≡ choice ∷ choices
    → first_choice answer ≡ choice.choice_heading
unfolding first_choice
first_choice-cons answer e = rw e refl

module _ ⦃case : CaseTable⦄ (js : Js) (runtime : IsJs js) where
  count_choice_lem :
      (answer : Answer) (choices : List Choice) (s : SizeCounts)
      → answer.answered_choices ≡ choices
      → IsUsual js answer
      → count_choice js choices (counts_of s)
        ≡ some (counts_of (add_size s (normalize_size (first_choice answer))).0)
  unfolding count_choice
  count_choice_lem answer [] s e h =
      rw (first_choice-nil answer e, normalize_size-nil, add_size-nil)
  count_choice_lem answer (choice ∷ choices) s e h =
      let plain : IsPlain choice.choice_heading =
        (subst (λ cs. All (λ (c : Choice). IsPlain c.choice_heading) cs) e h.choices).0 in
      ap (λ size. bump js size (counts_of s))
        (script_size_lem js runtime _ plain ∙ ap normalize_size (sym (first_choice-cons answer e)))
      ∙ bump-add_size js _ s h.size

  count_answer_lem :
      (answer : Answer) (s : SizeCounts)
      → IsUsual js answer
      → count_answer js answer (counts_of s)
        ≡ some (
            counts_of (
              if answers_tshirt answer
              then (add_size s (normalize_size (first_choice answer))).0
              else s))
  unfolding count_answer
  count_answer_lem answer s h = elim (Bool-cases (text_eq answer.question_heading [])) [
    | inl empty ↦ rw (empty, (text_eq_iff answer.question_heading []).0 empty, not_tshirt-nil) refl
    | inr asked ↦
        rw (asked, runtime.trim-eq answer.question_heading h.heading)
          (ground (arith, count_choice_lem answer answer.answered_choices s refl h))
  ]

  count_answers-none :
      (rest : List Answer) (s : SizeCounts)
      → All (λ a. IsUsual js a) rest
      → count_tshirt rest ≡ 0
      → count_answers js rest (counts_of s) ≡ some (counts_of s)
  unfolding count_answers count_tshirt
  count_answers-none [] s h k = refl
  count_answers-none (answer ∷ rest) s (u, h) k =
      ground (arith, count_answer_lem answer s u, count_answers-none rest s h)

  -- At most one answer: the script counts what the first one names.
  count_answers_lem :
      (rest : List Answer) (s : SizeCounts)
      → All (λ a. IsUsual js a) rest
      → count_tshirt rest ≤ 1
      → count_answers js rest (counts_of s)
        ≡ some (
            counts_of (elim (find_answer tshirt_question rest) [
              | none ↦ s
              | some answer ↦ (add_size s (normalize_size (first_choice answer))).0
            ]))
  unfolding count_answers count_tshirt find_answer
  count_answers_lem [] s h k = refl
  count_answers_lem (answer ∷ rest) s (u, h) k = elim (Bool-cases (answers_tshirt answer)) [
    | inl found ↦ ground (
      arith,
      found,
      count_answer_lem answer s u,
      count_answers-none rest (add_size s (normalize_size (first_choice answer))).0 h,
    )
    | inr other ↦ ground (arith, other, count_answer_lem answer s u, count_answers_lem rest s h)
  ]

  pub count_collection_lem :
      {F : Type 0} (ticket : Ticket F) (s : SizeCounts)
      → All (λ a. IsUsual js a) (answers ticket)
      → count_tshirt (answers ticket) ≤ 1
      → count_collection js ticket (counts_of s) ≡ some (counts_of (add_tshirt ticket s))
  unfolding count_collection add_tshirt answer_for answers
  count_collection_lem ticket s h k = ground (arith, count_answers_lem (answers ticket) s h k)
