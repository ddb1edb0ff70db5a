-- ===== src/Json/Number.antt =====
-- Decimal integers, printed by `strconv.AppendInt` and read back.
use ticketbutler_proxy.Common.{
  ℕ, zero, suc, ◌+◌, ◌-◌, ◌*◌, ◌/◌, ◌%◌, ◌<◌, ◌≡◌, sym, ◌∙◌, ap, Bool, true, false, some, [], ◌∷◌,
  arith, ltb, ◌==◌, inl, inr, Bool-cases,
}
use ticketbutler_proxy.Int.{ℤ, pos, negsuc, int64_half}
use ticketbutler_proxy.Text.{Text}
use ticketbutler_proxy.Errors.{decimal, decimal_from}
use ticketbutler_proxy.Config.Values.{digits_value, magnitude, positive, negative, atoi}

unfoldable pub print_int : ℤ → Text
print_int (pos n) = decimal n
print_int (negsuc n) = b'-' ∷ decimal (suc n)

-- The integers of a Go `int`.
unfoldable pub in_int64 : ℤ → Bool
in_int64 (pos n) = ltb n int64_half
in_int64 (negsuc n) = ltb n int64_half

digits_value-digit :
    (acc d : ℕ) (s : Text)
    → d < 10
    → digits_value acc ((b'0' + d) ∷ s) ≡ digits_value (acc * 10 + d) s
unfolding digits_value
digits_value-digit acc d s h = let e : b'0' + d - b'0' ≡ d = omega arith in rw e (ground arith)

digits_value-decimal_from :
    (fuel n : ℕ) (s : Text) → n < fuel → digits_value 0 (decimal_from fuel n s) ≡ digits_value n s
unfolding decimal_from
digits_value-decimal_from zero n s h = absurd (omega arith)
digits_value-decimal_from (suc fuel) n s h = elim (Bool-cases (ltb n 10)) [
  | inl small ↦
      let e : n % 10 ≡ n = ground arith in
      rw (small, e) (digits_value-digit 0 n s (ground arith) ∙ rw (zero-mul_add n))
  | inr large ↦
      let e : n / 10 * 10 + n % 10 ≡ n = omega arith in
      rw large (
        digits_value-decimal_from fuel (n / 10) ((b'0' + n % 10) ∷ s) (ground arith)
        ∙ digits_value-digit (n / 10) (n % 10) s (omega arith)
        ∙ rw e)
]
  where
    zero-mul_add : (m : ℕ) → 0 * 10 + m ≡ m
    zero-mul_add m = omega arith

digits_value-decimal : (n : ℕ) → digits_value 0 (decimal n) ≡ some n
unfolding decimal digits_value
digits_value-decimal n = digits_value-decimal_from (suc n) n [] (omega arith)

decimal_from-head :
    (fuel n : ℕ) (s : Text)
    → n < fuel
    → (d : ℕ) × (t : Text) × (d < 10) × (decimal_from fuel n s ≡ (b'0' + d) ∷ t)
unfolding decimal_from
decimal_from-head zero n s h = absurd (omega arith)
decimal_from-head (suc fuel) n s h = elim (Bool-cases (ltb n 10)) [
  | inl small ↦ (n % 10, s, omega arith, rw small)
  | inr large ↦
      let (d, t, digit, e) = decimal_from-head fuel (n / 10) ((b'0' + n % 10) ∷ s) (ground arith) in
      (d, t, digit, rw large e)
]

magnitude-decimal : (n : ℕ) → magnitude (decimal n) ≡ some n
unfolding magnitude decimal
magnitude-decimal n =
    let (d, t, digit, e) = decimal_from-head (suc n) n [] (omega arith) in
    rw e (ap (digits_value 0) (sym e) ∙ digits_value-decimal n)

-- A text of digits does not start with a sign.
atoi-decimal : (n : ℕ) → atoi (decimal n) ≡ positive (some n)
unfolding atoi decimal
atoi-decimal n =
    let (d, t, digit, e) = decimal_from-head (suc n) n [] (omega arith) in
    let no_minus : (b'0' + d == b'-') ≡ false = ground arith in
    let no_plus : (b'0' + d == b'+') ≡ false = ground arith in
    rw e (
      rw (no_minus, no_plus)
        (ap (λ m. positive (magnitude m)) (sym e) ∙ ap positive (magnitude-decimal n)))

atoi-minus : (n : ℕ) → atoi (b'-' ∷ decimal n) ≡ negative (some n)
unfolding atoi
atoi-minus n = ap negative (magnitude-decimal n)

-- An `int` that is printed is read back.
pub atoi-print_int : (z : ℤ) → in_int64 z ≡ true → atoi (print_int z) ≡ some z
unfolding print_int in_int64 positive negative
atoi-print_int (pos n) h = atoi-decimal n ∙ ground arith
atoi-print_int (negsuc n) h = atoi-minus (suc n) ∙ ground arith
