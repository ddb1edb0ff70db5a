-- ===== src/Snapshot/Goroutines/Tests.antt =====
-- Two goroutines over a store in memory.
use ticketbutler_proxy.Common.{ℕ, ◌<◌, ◌≡◌, ◌⊎◌, refl, true, false, none, some, [], ◌∷◌, arith}
use ticketbutler_proxy.Int.{pos}
use ticketbutler_proxy.Text.Ascii.{ascii_case}
use ticketbutler_proxy.Float.Milli.{milli}
use ticketbutler_proxy.Errors.{ok, limit_reader}
use ticketbutler_proxy.Store.Memory.{Memory, load, save, memory_store, memory_store-IsStore}
use ticketbutler_proxy.Snapshot.Snapshot.{build, encode, decode}
use ticketbutler_proxy.Snapshot.Refresher.{load_snapshot}
use ticketbutler_proxy.Snapshot.Tests.{options, empty_fetch, snapshot_at, codec}
use ticketbutler_proxy.Snapshot.Goroutines.{
  Input, System, step, Run, start, then, enter, to_save, to_publish, to_load, to_encode, advance,
  update, holds, quiet, idle, locking, fetching, saving, setting, unlocking, refresh,
}
use ticketbutler_proxy.Snapshot.Goroutines.Lock.{refreshes_exclude}
use ticketbutler_proxy.Snapshot.Goroutines.Progress.{CanGoOn, calls_go_on}
use ticketbutler_proxy.Snapshot.Goroutines.Effect.{has_saved}
use ticketbutler_proxy.Snapshot.Goroutines.Late.{late_read_overwrites}
use ticketbutler_proxy.Snapshot.Goroutines.Fresh.{cache_follows_store}

running : Unit {0}
unfolding build encode decode limit_reader load save advance enter to_encode to_save to_load
    to_publish update holds has_saved load_snapshot
running = tt

abbrev input : Input ℕ
input = record { call = refresh; fetch = ok empty_fetch; now = pos 5 }

abbrev before : System ℕ Memory
before = quiet (some (snapshot_at 1)) (some (1 ∷ []))

abbrev locked : System ℕ Memory
locked = record {
  shared = record before.shared { locked = true };
  goroutines = update (update before.goroutines 1 locking) 1 fetching;
}

to_locked : Run codec memory_store options 2 before locked
unfolding running
to_locked =
    then (then start (step 1 input before.shared locking (omega arith) refl))
      (step 1 input locked.shared fetching (omega arith) refl)

refreshes_exclude_example : ◌≡◌ {A = ℕ} 1 1
unfolding running
refreshes_exclude_example =
    refreshes_exclude codec memory_store options {t = locked} 1 1 to_locked refl refl

calls_go_on_example :
    ((i : ℕ) → i < 2 → locked.goroutines i ≡ idle)
    ⊎ ((i : ℕ) × (i < 2)
        × CanGoOn codec memory_store options input locked.shared (locked.goroutines i))
calls_go_on_example = calls_go_on codec memory_store options input to_locked

abbrev after : System ℕ Memory
after = record {
  shared = record {
    locked = true;
    cached = some (snapshot_at 5);
    stored = some (5 ∷ []);
    latest = some (snapshot_at 5);
    outcome = ok tt;
  };
  goroutines =
      update
        (update (update locked.goroutines 1 (saving (snapshot_at 5) (5 ∷ []))) 1
          (setting (snapshot_at 5)))
        1 unlocking;
}

to_after : Run codec memory_store options 2 before after
unfolding running
to_after =
    then
      (then
        (then to_locked
          (step 1 input locked.shared (saving (snapshot_at 5) (5 ∷ [])) (omega arith) refl))
        (step 1 input (record after.shared { cached = some (snapshot_at 1) })
          (setting (snapshot_at 5)) (omega arith) refl))
      (step 1 input after.shared unlocking (omega arith) refl)

settled : (i : ℕ) → has_saved (after.goroutines i) ≡ false
unfolding running
settled i = ground arith

cache_follows_store_example : memory_store.load (some (5 ∷ [])) ≡ encode codec (snapshot_at 5)
unfolding running
cache_follows_store_example =
    cache_follows_store codec memory_store options memory_store-IsStore {t = after}
      {first = snapshot_at 1} refl to_after settled refl refl

late_read_overwrites_example :
    (t : System ℕ Memory) × Run codec memory_store options 2 (quiet none (some (1 ∷ []))) t
    × ((i : ℕ) → t.goroutines i ≡ idle)
    × (t.shared.cached ≡ some (snapshot_at 1))
    × (t.shared.latest ≡ some (snapshot_at 5))
    × (t.shared.stored ≡ (memory_store.save (5 ∷ []) (some (1 ∷ []))).1)
unfolding running
late_read_overwrites_example =
    late_read_overwrites codec memory_store options empty_fetch (pos 5) (snapshot_at 1)
      (some (1 ∷ [])) (1 ∷ []) (5 ∷ []) refl refl refl
