-- ===== src/Main/Serving/Ends.antt =====
-- cmd/tbproxy/main.go: how `serve` ends.
use ticketbutler_proxy.Common.{
  ◌≡◌, ◌≢◌, ◌≤◌, refl, ◌⊎◌, inl, inr, Bool, true, false, Option, none, some, List, [], ◌∷◌, arith,
  length, All, ℕ,
}
use mathlib.Core.Path.{subst}
use ticketbutler_proxy.Errors.{Err}
use ticketbutler_proxy.Main.Serving.{
  server_closed, listen_failed, Listener, listening, sending, stopped, Waiter, selecting,
  shutting_down, returned, Serving, started, Happens, signal, accept, answer, listen_returns, send,
  receive, shut, shutdown_returns, next, happen,
}
use ticketbutler_proxy.Main.Serving.Invariant.{IsGood, Kept, Covered, WaiterGood, at, next-Kept}

-- `ListenAndServe` returned this error.
abbrev pub Occurs : Err → List Happens → Type 0
Occurs e [] = ⊥
Occurs e (listen_returns (listen_failed f) ∷ xs) = (e ≡ f) ⊎ Occurs e xs
Occurs e (_ ∷ xs) = Occurs e xs

module _ (E : Err → Type 0) where
  covered :
      (x : Happens) (xs : List Happens)
      → ((e : Err) → Occurs e (x ∷ xs) → E e)
      → Covered E x × ((e : Err) → Occurs e xs → E e)
  covered signal xs h = (tt, h)
  covered accept xs h = (tt, h)
  covered answer xs h = (tt, h)
  covered (listen_returns server_closed) xs h = (tt, h)
  covered (listen_returns (listen_failed e)) xs h = (h e (inl refl), λ f o. h f (inr o))
  covered send xs h = (tt, h)
  covered receive xs h = (tt, h)
  covered shut xs h = (tt, h)
  covered (shutdown_returns r) xs h = (tt, h)

  happen-Kept :
      (xs : List Happens) (s : Serving)
      → ((e : Err) → Occurs e xs → E e)
      → IsGood E s
      → Kept E (happen xs s)
  unfolding happen
  happen-Kept [] s h g = g
  happen-Kept (x ∷ xs) s h g =
      let (here, later) = covered x xs h in
      (elim (next s.waiter x s)
          as (λ o. Kept E o → Kept E (elim o [ none ↦ none | some t ↦ happen xs t ])) [
            | none ↦ λ k. tt
            | some t ↦ λ k. happen-Kept xs t later k
          ])
        (next-Kept E x s here g)

started-IsGood : (E : Err → Type 0) → IsGood E started
started-IsGood E = record { listener = refl; errs = tt; waiter = tt; heard = tt }

-- Every state that is met is good, for the errors that have occurred.
happened-IsGood :
    (xs : List Happens) (s : Serving) → happen xs started ≡ some s → IsGood (λ e. Occurs e xs) s
happened-IsGood xs s h =
    subst (Kept (λ e. Occurs e xs)) h (happen-Kept _ xs started (λ e o. o) (started-IsGood _))

-- Why `serve` ended: with no error, since a signal came and every request had been answered; with an
-- error, since a signal came, or `ListenAndServe` returned that error.
abbrev pub Reason : List Happens → Serving → Option Err → Type 0
Reason xs s none = (s.signalled ≡ true) × (s.requests ≡ 0)
Reason xs s (some e) = (s.signalled ≡ true) ⊎ Occurs e xs

waiter-Reason :
    (xs : List Happens) (s : Serving) (w : Waiter) (r : Option Err)
    → w ≡ returned r
    → WaiterGood (λ e. Occurs e xs) w s.signalled s.requests
    → Reason xs s r
waiter-Reason xs s selecting r e h = cc
waiter-Reason xs s shutting_down r e h = cc
waiter-Reason xs s (returned none) none e h = h
waiter-Reason xs s (returned none) (some f) e h = cc
waiter-Reason xs s (returned (some d)) none e h = cc
waiter-Reason xs s (returned (some d)) (some f) e h =
    let same : d ≡ f = cc in subst (λ x. (s.signalled ≡ true) ⊎ Occurs x xs) same h

-- Whatever happens, in whatever order: if `serve` has returned no error, a signal has come and every
-- request has been answered; if it has returned an error, a signal has come or the error is one that
-- `ListenAndServe` returned, other than `http.ErrServerClosed`.
pub serve_ends :
    (xs : List Happens) (s : Serving) (r : Option Err)
    → happen xs started ≡ some s
    → s.waiter ≡ returned r
    → Reason xs s r
serve_ends xs s r h e = waiter-Reason xs s s.waiter r e (happened-IsGood xs s h).waiter

-- An event of the two goroutines of `serve` or of `Shutdown`.
abbrev pub IsOwn : Happens → Type 0
IsOwn send = Unit
IsOwn receive = Unit
IsOwn shut = Unit
IsOwn (shutdown_returns r) = Unit
IsOwn _ = ⊥

-- At most two such events make it return.
abbrev pub CanEnd : Serving → Type 0
CanEnd s =
    (xs : List Happens) × (t : Serving) × (r : Option Err) × All IsOwn xs
    × (length xs ≤ 2)
    × (happen xs s ≡ some t)
    × (t.waiter ≡ returned r)

-- A signal has come, or `ListenAndServe` has returned.
abbrev pub IsEnding : Serving → Type 0
IsEnding s = (s.signalled ≡ true) ⊎ (s.listener ≢ listening)

end_from :
    (E : Err → Type 0) (late : Err) (l : Listener) (o : Option Err) (b : Bool) (w : Waiter) (n : ℕ)
    → IsEnding (at l o b w n)
    → IsGood E (at l o b w n)
    → CanEnd (at l o b w n)
unfolding happen next
end_from E late l o b (returned r) n h g =
    ([], at l o b (returned r) n, r, tt, omega arith, refl, refl)
end_from E late l o b shutting_down n h g = (
  shutdown_returns (some late) ∷ [],
  at l o b (returned (some late)) n,
  some late,
  (tt, tt),
  omega arith,
  refl,
  refl,
)
end_from E late l o true selecting n h g = (
  shut ∷ shutdown_returns (some late) ∷ [],
  at l o true (returned (some late)) n,
  some late,
  (tt, (tt, tt)),
  omega arith,
  refl,
  refl,
)
end_from E late l (some e) false selecting n h g =
    (receive ∷ [], at l none false (returned (some e)) n, some e, (tt, tt), omega arith, refl, refl)
end_from E late (sending e) none false selecting n h g = (
  send ∷ receive ∷ [],
  at stopped none false (returned (some e)) n,
  some e,
  (tt, (tt, tt)),
  omega arith,
  refl,
  refl,
)
end_from E late stopped none false selecting n h g = absurd g.heard
end_from E late listening none false selecting n (inl h) g = cc
end_from E late listening none false selecting n (inr h) g = absurd (h refl)

-- Whatever has happened: once a signal has come or `ListenAndServe` has returned, at most two further
-- steps of `serve`, of the goroutine that listens, or of `Shutdown`, which can return its context's
-- error, make `serve` return.
pub serve-CanEnd :
    (xs : List Happens) (s : Serving) (late : Err)
    → happen xs started ≡ some s
    → IsEnding s
    → CanEnd s
serve-CanEnd xs s late h ending =
    end_from (λ e. Occurs e xs) late s.listener s.errs s.signalled s.waiter s.requests ending
      (happened-IsGood xs s h)
