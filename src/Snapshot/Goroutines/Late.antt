-- ===== src/Snapshot/Goroutines/Late.antt =====
-- A read that is overtaken by a refresh.
use ticketbutler_proxy.Common.{ℕ, ◌<◌, ◌≡◌, refl, ap, true, none, some, arith}
use ticketbutler_proxy.Int.{ℤ}
use ticketbutler_proxy.Text.{CaseTable}
use ticketbutler_proxy.Float.{Float}
use ticketbutler_proxy.Errors.{Bytes, ok}
use ticketbutler_proxy.Store.{Store}
use ticketbutler_proxy.Ticketbutler.Client.{Fetched}
use ticketbutler_proxy.Aggregate.Summary.{Options}
use ticketbutler_proxy.Snapshot.Snapshot.{Snapshot, Codec, build, encode, decode}
use ticketbutler_proxy.Snapshot.Refresher.{load_snapshot}
use ticketbutler_proxy.Snapshot.Goroutines.{
  Input, System, enter, to_save, to_publish, to_load, update, to_encode, advance, step, Run, start,
  then, quiet, idle, locking, fetching, saving, reading, loading, publishing, refresh, current,
}

module _ {F S : Type 0} ⦃float : Float F⦄ ⦃case : CaseTable⦄ (codec : Codec F) (store : Store S)
    (opts : Options) where
  loaded :
      (stored : S) {bytes : Bytes} {snap : Snapshot F}
      → store.load stored ≡ ok bytes
      → decode codec bytes ≡ ok snap
      → load_snapshot codec store opts stored ≡ ok snap
  unfolding load_snapshot
  loaded stored h k = ground (arith, h, k)

  -- A read that finds the cache empty and loads the old snapshot can put it into the cache after a
  -- refresh has given a new one to the store and cached it: then no call is under way, and the cache
  -- is older than what was saved.
  pub late_read_overwrites :
      (result : Fetched F) (now : ℤ) (old : Snapshot F) (stored : S) (old_bytes new_bytes : Bytes)
      → store.load stored ≡ ok old_bytes
      → decode codec old_bytes ≡ ok old
      → encode codec (build result now opts) ≡ ok new_bytes
      → (t : System F S) × Run codec store opts 2 (quiet none stored) t
        × ((i : ℕ) → t.goroutines i ≡ idle)
        × (t.shared.cached ≡ some old)
        × (t.shared.latest ≡ some (build result now opts))
        × (t.shared.stored ≡ (store.save new_bytes stored).1)
  unfolding advance enter to_encode to_save to_load to_publish update
  late_read_overwrites result now old stored old_bytes new_bytes l d e =
      let reads : Input F = record { call = current; fetch = ok result; now = now } in
      let refreshes : Input F = record { call = refresh; fetch = ok result; now = now } in
      let free = (quiet {F = F} none stored).shared in
      let taken = record free { locked = true } in
      let first : 0 < 2 = omega arith in
      let second : 1 < 2 = omega arith in
      let called = then start (step 0 reads free reading first refl) in
      let missed = then called (step 0 reads free loading first refl) in
      let late = then missed (
        step 0 reads free (publishing old) first
          (ap (λ r. some (free, to_publish r)) (loaded stored l d))) in
      let entered = then late (step 1 refreshes free locking second refl) in
      let locked = then entered (step 1 refreshes taken fetching second refl) in
      let fetched = then locked (
        step 1 refreshes taken (saving (build result now opts) new_bytes) second
          (ap (λ r. some (taken, to_save (build result now opts) r)) e)) in
      let saved = then fetched (step 1 refreshes _ _ second refl) in
      let cached = then saved (step 1 refreshes _ _ second refl) in
      let unlocked = then cached (step 1 refreshes _ _ second refl) in
      (_, then unlocked (step 0 reads _ _ first refl), λ i. ground arith, refl, refl, refl)
