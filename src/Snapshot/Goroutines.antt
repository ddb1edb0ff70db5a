-- ===== src/Snapshot/Goroutines.antt =====
-- internal/snapshot/refresher.go: any number of goroutines that call `Refresh` and `Current`. `refreshMu`
-- lets one refresh run at a time; `cacheMu` is held only while the cache is read or written, so a step
-- is what a call does up to its next access to what it shares with others.
pub mod Lock
pub mod Progress
pub mod Effect
pub mod Fresh
pub mod Late
mod Tests
use ticketbutler_proxy.Common.{
  ℕ, ◌<◌, ◌≡◌, Bool, true, false, Option, none, some, if◌then◌else◌, ◌==◌,
}
use ticketbutler_proxy.Int.{ℤ}
use ticketbutler_proxy.Text.{CaseTable}
use ticketbutler_proxy.Float.{Float}
use ticketbutler_proxy.Errors.{Bytes, Result, ok, err}
use ticketbutler_proxy.Store.{Store}
use ticketbutler_proxy.Ticketbutler.Client.{Fetched}
use ticketbutler_proxy.Aggregate.Summary.{Options}
use ticketbutler_proxy.Snapshot.Snapshot.{Snapshot, Codec, build, encode}
use ticketbutler_proxy.Snapshot.Refresher.{load_snapshot}

-- Where a goroutine stands: in no call; in `Refresh`, before it has the lock, before the fetch, before
-- the save, before it sets the cache, before it gives the lock back; in `Current`, before it looks at the
-- cache, before the load, before it sets the cache.
pub data Goroutine (F : Type 0) : Type 0 where
  idle : Goroutine F
  locking : Goroutine F
  fetching : Goroutine F
  saving : Snapshot F → Bytes → Goroutine F
  setting : Snapshot F → Goroutine F
  unlocking : Goroutine F
  reading : Goroutine F
  loading : Goroutine F
  publishing : Snapshot F → Goroutine F

-- What the goroutines share.
pub record Shared (F S : Type 0) : Type 0 where
  -- `refreshMu`
  pub locked : Bool
  pub cached : Option (Snapshot F)
  pub stored : S
  -- the snapshot that a refresh gave to the store last, and what the store said of it
  pub latest : Option (Snapshot F)
  pub outcome : Result (Unit {0})

pub data Call : Type 0 where
  refresh : Call
  current : Call

-- What a step takes from outside: the call that is made, and what a fetch gives and when.
pub record Input (F : Type 0) : Type 0 where
  pub call : Call
  pub fetch : Result (Fetched F)
  pub now : ℤ

unfoldable pub enter : {F : Type 0} → Call → Goroutine F
enter refresh = locking
enter current = reading

unfoldable pub to_save : {F : Type 0} → Snapshot F → Result Bytes → Goroutine F
to_save snap (err e) = unlocking
to_save snap (ok bytes) = saving snap bytes

unfoldable pub to_publish : {F : Type 0} → Result (Snapshot F) → Goroutine F
to_publish (err e) = idle
to_publish (ok snap) = publishing snap

unfoldable pub to_load : {F : Type 0} → Option (Snapshot F) → Goroutine F
to_load (some snap) = idle
to_load none = loading

unfoldable pub update : {A : Type 0} → (ℕ → A) → ℕ → A → ℕ → A
update f i a j = if i == j then a else f j

pub record System (F S : Type 0) : Type 0 where
  pub shared : Shared F S
  pub goroutines : ℕ → Goroutine F

module _ {F S : Type 0} ⦃float : Float F⦄ ⦃case : CaseTable⦄ (codec : Codec F) (store : Store S)
    (opts : Options) where
  unfoldable pub to_encode : Result (Fetched F) → ℤ → Goroutine F
  unfolding to_save
  to_encode (err e) now = unlocking
  to_encode (ok result) now = to_save (build result now opts) (encode codec (build result now opts))

  -- The next step of one goroutine; none while it waits for the lock.
  unfoldable pub advance : Input F → Shared F S → Goroutine F → Option (Shared F S × Goroutine F)
  unfolding enter to_encode to_load to_publish
  advance x m idle = some (m, enter x.call)
  advance x m locking = if m.locked then none else some (record m { locked = true }, fetching)
  advance x m fetching = some (m, to_encode x.fetch x.now)
  advance x m (saving snap bytes) =
      let (saved, s) = store.save bytes m.stored in
      some (record m { stored = s; latest = some snap; outcome = saved }, setting snap)
  advance x m (setting snap) = some (record m { cached = some snap }, unlocking)
  advance x m unlocking = some (record m { locked = false }, idle)
  advance x m reading = some (m, to_load m.cached)
  advance x m loading = some (m, to_publish (load_snapshot codec store opts m.stored))
  advance x m (publishing snap) = some (record m { cached = some snap }, idle)

  -- One of the first `n` goroutines makes its next step.
  pub data Step (n : ℕ) (s : System F S) : System F S → Type 0 where
    step :
        (i : ℕ) (x : Input F) (m : Shared F S) (g : Goroutine F)
        → i < n
        → advance x s.shared (s.goroutines i) ≡ some (m, g)
        → Step n s (record { shared = m; goroutines = update s.goroutines i g })

  pub data Run (n : ℕ) (s : System F S) : System F S → Type 0 where
    start : Run n s s
    then : {t u : System F S} → Run n s t → Step n t u → Run n s u

-- Between `refreshMu.Lock()` and `refreshMu.Unlock()`.
unfoldable pub holds : {F : Type 0} → Goroutine F → Bool
holds idle = false
holds locking = false
holds fetching = true
holds (saving snap bytes) = true
holds (setting snap) = true
holds unlocking = true
holds reading = false
holds loading = false
holds (publishing snap) = false

-- A process in which no call is under way.
abbrev pub quiet : {F S : Type 0} → Option (Snapshot F) → S → System F S
quiet cached stored = record {
  shared = record {
    locked = false;
    cached = cached;
    stored = stored;
    latest = cached;
    outcome = ok tt;
  };
  goroutines = λ i. idle;
}
