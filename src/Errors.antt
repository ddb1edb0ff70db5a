-- ===== src/Errors.antt =====
-- Go's `error` values, as the service makes, wraps and inspects them.
use ticketbutler_proxy.Common.{
  ℕ, zero, suc, ◌+◌, ◌/◌, ◌%◌, Bool, true, false, ◌||◌, Option, none, some, List, [], ◌∷◌, ◌++◌,
  ltb, if◌then◌else◌,
}
use ticketbutler_proxy.Text.{Text, codes}

-- A sequence of bytes.
abbrev pub Bytes : Type 0
Bytes = List ℕ

-- What `io.LimitReader` lets through.
unfoldable pub limit_reader : ℕ → Bytes → Bytes
limit_reader zero body = []
limit_reader (suc n) [] = []
limit_reader (suc n) (b ∷ body) = b ∷ limit_reader n body

pub data Err : Type 0 where
  -- store.ErrNotFound
  not_found : Err
  -- *ticketbutler.ErrUpstream: the status and the body's excerpt
  upstream : ℕ → Bytes → Err
  -- any other error, by its text
  message : Text → Err
  -- fmt.Errorf("…: %w", …)
  wrapped : Text → Err → Err
  -- errors.Join of two errors
  joined : Err → Err → Err

pub data Result (A : Type 0) : Type 0 where
  ok : A → Result A
  err : Err → Result A

infixl 5 ◌>>=◌
abbrev pub ◌>>=◌ : {A B : Type 0} → Result A → (A → Result B) → Result B
ok a >>= f = f a
err e >>= f = err e

-- The error of a failure is wrapped.
abbrev pub with_context : {A : Type 0} → Text → Result A → Result A
with_context context (ok a) = ok a
with_context context (err e) = err (wrapped context e)

abbrev pub or_else : {A : Type 0} → Option A → Option A → Option A
or_else none b = b
or_else (some a) b = some a

-- `errors.As(err, &upstream)`: the first *ErrUpstream in the tree of the error, depth first.
unfoldable pub as_upstream : Err → Option (ℕ × Bytes)
as_upstream not_found = none
as_upstream (upstream status body) = some (status, body)
as_upstream (message text) = none
as_upstream (wrapped context e) = as_upstream e
as_upstream (joined e f) = or_else (as_upstream e) (as_upstream f)

-- `errors.Is(err, store.ErrNotFound)`.
unfoldable pub is_not_found : Err → Bool
is_not_found not_found = true
is_not_found (upstream status body) = false
is_not_found (message text) = false
is_not_found (wrapped context e) = is_not_found e
is_not_found (joined e f) = is_not_found e || is_not_found f

-- The decimal digits of a number, with fuel for one digit more than it can have.
unfoldable pub decimal_from : ℕ → ℕ → Text → Text
decimal_from zero n digits = digits
decimal_from (suc fuel) n digits =
    let rest = decimal_from fuel (n / 10) ((b'0' + n % 10) ∷ digits) in
    if ltb n 10 then (b'0' + n % 10) ∷ digits else rest

unfoldable pub decimal : ℕ → Text
unfolding decimal_from
decimal n = decimal_from (suc n) n []

-- `err.Error()`.
unfoldable pub error_text : Err → Text
unfolding decimal
error_text not_found = codes "no snapshot stored"
error_text (upstream status body) =
    codes "ticketbutler returned " ++ (decimal status ++ (codes ": " ++ body))
error_text (message text) = text
error_text (wrapped context e) = context ++ (codes ": " ++ error_text e)
error_text (joined e f) = error_text e ++ (codes "\n" ++ error_text f)
