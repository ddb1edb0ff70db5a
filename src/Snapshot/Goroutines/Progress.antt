-- ===== src/Snapshot/Goroutines/Progress.antt =====
-- Calls of `Refresh` and `Current` go on, however their steps interleave.
use ticketbutler_proxy.Common.{
  ℕ, zero, suc, ◌<◌, ◌≡◌, ◌≢◌, refl, ◌∙◌, ap, true, false, Option, some, arith, inl, inr,
  Bool-cases, ◌==◌, ◌⊎◌,
}
use ticketbutler_proxy.Text.{CaseTable}
use ticketbutler_proxy.Float.{Float}
use ticketbutler_proxy.Store.{Store}
use ticketbutler_proxy.Aggregate.Summary.{Options}
use ticketbutler_proxy.Snapshot.Snapshot.{Snapshot, Codec}
use ticketbutler_proxy.Snapshot.Goroutines.{
  Goroutine, Shared, Input, System, advance, Run, holds, quiet, idle, locking, fetching, saving,
  setting, unlocking, reading, loading, publishing,
}
use ticketbutler_proxy.Snapshot.Goroutines.Lock.{Run-IsLocked, quiet-IsLocked}

is_idle : {F : Type 0} (g : Goroutine F) → (g ≡ idle) ⊎ (g ≢ idle)
is_idle idle = inl refl
is_idle locking = inr (λ e. cc)
is_idle fetching = inr (λ e. cc)
is_idle (saving snap bytes) = inr (λ e. cc)
is_idle (setting snap) = inr (λ e. cc)
is_idle unlocking = inr (λ e. cc)
is_idle reading = inr (λ e. cc)
is_idle loading = inr (λ e. cc)
is_idle (publishing snap) = inr (λ e. cc)

-- All of the first `n` goroutines are in no call, or one is found that is.
find_busy :
    {F : Type 0} (n : ℕ) (gs : ℕ → Goroutine F)
    → ((i : ℕ) → i < n → gs i ≡ idle) ⊎ ((i : ℕ) × (i < n) × (gs i ≢ idle))
find_busy zero gs = inl (λ i below. absurd (omega arith))
find_busy (suc n) gs = elim (find_busy n gs) [
  | inr (i, below, busy) ↦ inr (i, omega arith, busy)
  | inl quiet_below ↦ elim (is_idle (gs n)) [
    | inr busy ↦ inr (n, omega arith, busy)
    | inl last ↦ inl (λ i below. elim (Bool-cases (i == n)) [
      | inl same ↦ let e : i ≡ n = ground (arith, same) in ap gs e ∙ last
      | inr other ↦ quiet_below i (ground (arith, below, other))
    ])
  ]
]

module _ {F S : Type 0} ⦃float : Float F⦄ ⦃case : CaseTable⦄ (codec : Codec F) (store : Store S)
    (opts : Options) where
  -- A goroutine in a call that holds the lock, or that meets a free one, can go on, whatever a fetch gives.
  abbrev pub CanGoOn : Input F → Shared F S → Goroutine F → Type 0
  CanGoOn x m g =
      (g ≢ idle)
      × (m' : Shared F S) × (g' : Goroutine F) × (advance codec store opts x m g ≡ some (m', g'))

  holder_goes_on : (x : Input F) (m : Shared F S) (g : Goroutine F) → holds g ≡ true → CanGoOn x m g
  unfolding advance holds
  holder_goes_on x m idle h = absurd (ground (arith, h))
  holder_goes_on x m locking h = absurd (ground (arith, h))
  holder_goes_on x m fetching h = (λ e. cc, _, _, refl)
  holder_goes_on x m (saving snap bytes) h = (λ e. cc, _, _, refl)
  holder_goes_on x m (setting snap) h = (λ e. cc, _, _, refl)
  holder_goes_on x m unlocking h = (λ e. cc, _, _, refl)
  holder_goes_on x m reading h = absurd (ground (arith, h))
  holder_goes_on x m loading h = absurd (ground (arith, h))
  holder_goes_on x m (publishing snap) h = absurd (ground (arith, h))

  goes_on_unlocked :
      (x : Input F) (m : Shared F S) (g : Goroutine F) → m.locked ≡ false → g ≢ idle → CanGoOn x m g
  unfolding advance
  goes_on_unlocked x m idle free busy = absurd (busy refl)
  goes_on_unlocked x m locking free busy = (busy, record m { locked = true }, fetching, rw free)
  goes_on_unlocked x m fetching free busy = (busy, _, _, refl)
  goes_on_unlocked x m (saving snap bytes) free busy = (busy, _, _, refl)
  goes_on_unlocked x m (setting snap) free busy = (busy, _, _, refl)
  goes_on_unlocked x m unlocking free busy = (busy, _, _, refl)
  goes_on_unlocked x m reading free busy = (busy, _, _, refl)
  goes_on_unlocked x m loading free busy = (busy, _, _, refl)
  goes_on_unlocked x m (publishing snap) free busy = (busy, _, _, refl)

  -- No reachable state is a deadlock: all goroutines are in no call, or one that is in a call can make its
  -- next step, whatever a fetch gives it.
  pub calls_go_on :
      {n : ℕ} {cached : Option (Snapshot F)} {stored : S} {t : System F S} (x : Input F)
      → Run codec store opts n (quiet cached stored) t
      → ((i : ℕ) → i < n → t.goroutines i ≡ idle)
        ⊎ ((i : ℕ) × (i < n) × CanGoOn x t.shared (t.goroutines i))
  calls_go_on {n} {cached} {stored} {t} x r =
      let inv = Run-IsLocked codec store opts r (quiet-IsLocked n cached stored) in
      elim (Bool-cases t.shared.locked) [
        | inl held ↦
            let (k, below, holder) = inv.owner held in
            inr (k, below, holder_goes_on x t.shared (t.goroutines k) holder)
        | inr free ↦ elim (find_busy n t.goroutines) [
          | inl quiet_all ↦ inl quiet_all
          | inr (i, below, busy) ↦
              inr (i, below, goes_on_unlocked x t.shared (t.goroutines i) free busy)
        ]
      ]
