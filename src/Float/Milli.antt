-- ===== src/Float/Milli.antt =====
-- Amounts in thousandths, to run the code on: no value below 0 occurs in the runs. A text is a decimal
-- integer with an exponent, `1250e-3`; an amount to the cent has the exponent -2.
use ticketbutler_proxy.Common.{
  ℕ, zero, suc, ◌+◌, ◌-◌, ◌*◌, ◌/◌, ◌%◌, ◌<◌, ◌≡◌, ◌≢◌, ◌∙◌, ◌&&◌, Option, none, some, [], ◌∷◌, All,
  arith, ltb, leb, ◌==◌, if◌then◌else◌, inl, inr, Bool-cases,
}
use ticketbutler_proxy.Int.{pos, pos_part}
use ticketbutler_proxy.Text.{Text, codes, text_eq}
use ticketbutler_proxy.Errors.{decimal_from}
use ticketbutler_proxy.Float.{Float, IsFloat}

-- What stands for the value of an integer with an exponent.
unfoldable pub scale : ℕ → Text → Option ℕ
scale n s =
    if text_eq s (codes "e-3")
    then some n
    else if text_eq s (codes "e-2")
    then some (n * 10)
    else none

unfoldable pub read_scaled : ℕ → Text → Option ℕ
unfolding scale
read_scaled n [] = none
read_scaled n (c ∷ s) =
    let rest = read_scaled (n * 10 + (c - b'0')) s in
    if leb b'0' c && leb c b'9' then rest else scale n (c ∷ s)

read_scaled-digit :
    (n d : ℕ) (s : Text) → d < 10 → read_scaled n ((b'0' + d) ∷ s) ≡ read_scaled (n * 10 + d) s
unfolding read_scaled
read_scaled-digit n d s h = let e : b'0' + d - b'0' ≡ d = omega arith in rw e (ground arith)

read_scaled-decimal_from :
    (fuel n : ℕ) (s : Text) → n < fuel → read_scaled 0 (decimal_from fuel n s) ≡ read_scaled n s
unfolding decimal_from
read_scaled-decimal_from zero n s h = absurd (omega arith)
read_scaled-decimal_from (suc fuel) n s h = elim (Bool-cases (ltb n 10)) [
  | inl small ↦
      let e : n % 10 ≡ n = ground arith in
      let sum : 0 * 10 + n ≡ n = omega arith in
      rw (small, e) (read_scaled-digit 0 n s (ground arith) ∙ rw sum)
  | inr large ↦
      let e : n / 10 * 10 + n % 10 ≡ n = omega arith in
      rw large (
        read_scaled-decimal_from fuel (n / 10) ((b'0' + n % 10) ∷ s) (ground arith)
        ∙ read_scaled-digit (n / 10) (n % 10) s (omega arith)
        ∙ rw e)
]

-- The digits of a number, with a text after them.
unfoldable pub scaled : ℕ → Text → Text
scaled n s = decimal_from (suc n) n s

read_scaled-thousandths : (n : ℕ) → read_scaled 0 (scaled n (codes "e-3")) ≡ some n
unfolding scaled read_scaled text_eq
read_scaled-thousandths n = read_scaled-decimal_from (suc n) n (codes "e-3") (omega arith)

read_scaled-hundredths : (n : ℕ) → read_scaled 0 (scaled n (codes "e-2")) ≡ some (n * 10)
unfolding scaled read_scaled text_eq
read_scaled-hundredths n = read_scaled-decimal_from (suc n) n (codes "e-2") (omega arith)

abbrev Plain : Text → Type 0
Plain = All (λ c. (c ≢ b'"') × (c ≢ 0x5c))

-- A text that ends in plain characters, and has some, is plain with digits in front.
decimal_from-Plain : (fuel n : ℕ) (s : Text) → Plain s → Plain (decimal_from fuel n s)
unfolding decimal_from
decimal_from-Plain zero n s h = h
decimal_from-Plain (suc fuel) n s h = elim (Bool-cases (ltb n 10)) [
  | inl small ↦ rw small ((λ e. absurd (omega arith), λ e. absurd (omega arith)), h)
  | inr large ↦ rw large (
      decimal_from-Plain fuel (n / 10) ((b'0' + n % 10) ∷ s)
        ((λ e. absurd (omega arith), λ e. absurd (omega arith)), h))
]

-- The first code point is a digit.
decimal_from-digit :
    (fuel n : ℕ) (s t : Text) → n < fuel → (c : ℕ) → decimal_from fuel n s ≡ c ∷ t → c < 58
unfolding decimal_from
decimal_from-digit zero n s t h c e = absurd (omega arith)
decimal_from-digit (suc fuel) n s t h c e = elim (Bool-cases (ltb n 10)) [
  | inl small ↦ let same : b'0' + n % 10 ≡ c = cc (rw small at e) in omega arith
  | inr large ↦
      decimal_from-digit fuel (n / 10) ((b'0' + n % 10) ∷ s) t (ground arith) c (rw large at e)
]

decimal_from-ne-nil : (fuel n : ℕ) (s : Text) → n < fuel → decimal_from fuel n s ≢ []
unfolding decimal_from
decimal_from-ne-nil zero n s h = absurd (omega arith)
decimal_from-ne-nil (suc fuel) n s h = elim (Bool-cases (ltb n 10)) [
  | inl small ↦ rw small (λ e. cc)
  | inr large ↦ rw large (decimal_from-ne-nil fuel (n / 10) ((b'0' + n % 10) ∷ s) (ground arith))
]

-- To the nearest cent.
abbrev pub hundredths : ℕ → ℕ
hundredths x = (x + 5) / 10

instance abbrev pub milli : Float ℕ
milli = record {
  zero_float = 0;
  add = ◌+◌;
  div = λ a b. a * 1000 / b;
  lt = ltb;
  eq = ◌==◌;
  of_int = λ z. pos_part z * 1000;
  truncate = λ x. pos (x / 1000);
  parse = read_scaled 0;
  format_cents = λ x. scaled (hundredths x) (codes "e-2");
  print_json = λ x. some (scaled x (codes "e-3"));
}

abbrev pub cents : ℕ → ℕ
cents x = hundredths x * 10

scaled-ne-null : (n : ℕ) → scaled n (codes "e-2") ≢ codes "null"
unfolding scaled
scaled-ne-null n e =
    absurd (omega (arith, decimal_from-digit (suc n) n _ (codes "ull") (omega arith) b'n' e))

read_print : (x : ℕ) (s : Text) → some (scaled x (codes "e-3")) ≡ some s → read_scaled 0 s ≡ some x
read_print x s h =
    let same : scaled x (codes "e-3") ≡ s = cc in rw (← same) (read_scaled-thousandths x)

pub milli-IsFloat : IsFloat milli cents
unfolding scaled
milli-IsFloat = record {
  parse-print_json = read_print;
  parse-format_cents = λ x. read_scaled-hundredths (hundredths x);
  format_cents-cents = λ x. let e : hundredths (cents x) ≡ hundredths x = omega arith in rw e;
  format_cents-ne-nil =
      λ x. decimal_from-ne-nil (suc (hundredths x)) (hundredths x) _ (omega arith);
  format_cents-ne-null = λ x. scaled-ne-null (hundredths x);
  format_cents_plain =
      λ x. decimal_from-Plain (suc (hundredths x)) (hundredths x) (codes "e-2") (omega arith);
}
