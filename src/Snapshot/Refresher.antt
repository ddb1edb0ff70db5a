-- ===== src/Snapshot/Refresher.antt =====
-- internal/snapshot/refresher.go: refreshing, and reading the current snapshot.
pub mod Laws
use ticketbutler_proxy.Common.{ℕ, Option, none, some}
use ticketbutler_proxy.Int.{ℤ}
use ticketbutler_proxy.Text.{CaseTable}
use ticketbutler_proxy.Float.{Float}
use ticketbutler_proxy.Errors.{Bytes, Err, Result, ok, err}
use ticketbutler_proxy.Store.{Store}
use ticketbutler_proxy.Ticketbutler.Client.{Fetched}
use ticketbutler_proxy.Aggregate.Summary.{Options}
use ticketbutler_proxy.Snapshot.Snapshot.{Snapshot, Codec, build, encode, decode}

-- The state of a process: its cached snapshot, and what stands behind its store.
pub record State (F S : Type 0) : Type 0 where
  pub cached : Option (Snapshot F)
  pub stored : S

-- Go's `(*Snapshot, error)`, where both may be set.
pub record Refreshed (F : Type 0) : Type 0 where
  pub snapshot : Option (Snapshot F)
  pub error : Option Err

module _ {F S : Type 0} where
  -- `r.setCached(snap)` after a save, and what is returned.
  unfoldable pub after_save : Snapshot F → Result (Unit {0}) × S → Refreshed F × State F S
  after_save snap (ok _, s) =
      (record { snapshot = some snap; error = none }, record { cached = some snap; stored = s })
  after_save snap (err e, s) =
      (record { snapshot = some snap; error = some e }, record { cached = some snap; stored = s })

  -- `r.setCached(snap)` after a load that was decoded.
  unfoldable pub after_load : Result (Snapshot F) → State F S → Result (Snapshot F) × State F S
  after_load (err e) st = (err e, st)
  after_load (ok snap) st = (ok snap, record st { cached = some snap })

module _ {F S : Type 0} ⦃float : Float F⦄ ⦃case : CaseTable⦄ (codec : Codec F) (store : Store S)
    (opts : Options) where
  unfoldable pub after_encode : Snapshot F → Result Bytes → State F S → Refreshed F × State F S
  unfolding after_save
  after_encode snap (err e) st = (record { snapshot = none; error = some e }, st)
  after_encode snap (ok bytes) st = after_save snap (store.save bytes st.stored)

  -- `fetch` is what the fetcher returns, and `now` the clock after it.
  unfoldable pub refresh : Result (Fetched F) → ℤ → State F S → Refreshed F × State F S
  unfolding after_encode
  refresh (err e) now st = (record { snapshot = none; error = some e }, st)
  refresh (ok result) now st =
      let snap = build result now opts in after_encode snap (encode codec snap) st

  -- What a load gives, once decoded.
  unfoldable pub load_snapshot : S → Result (Snapshot F)
  load_snapshot s = elim (store.load s) [ err e ↦ err e | ok bytes ↦ decode codec bytes ]

  unfoldable pub current : State F S → Result (Snapshot F) × State F S
  unfolding load_snapshot after_load
  current st = elim st.cached [
    | some snap ↦ (ok snap, st)
    | none ↦ after_load (load_snapshot st.stored) st
  ]

  -- `Warm` logs what `Current` returns.
  unfoldable pub warm : State F S → State F S
  unfolding current
  warm st = (current st).1
