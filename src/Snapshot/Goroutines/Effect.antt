-- ===== src/Snapshot/Goroutines/Effect.antt =====
-- What one step does to the cache and the store, while the cache is filled.
use ticketbutler_proxy.Common.{
  ◌≡◌, ◌≢◌, refl, Bool, true, false, Option, none, some, arith, inl, inr, Bool-cases,
}
use ticketbutler_proxy.Int.{ℤ}
use ticketbutler_proxy.Text.{CaseTable}
use ticketbutler_proxy.Float.{Float}
use ticketbutler_proxy.Errors.{Bytes, Result, ok, err}
use ticketbutler_proxy.Store.{Store}
use ticketbutler_proxy.Ticketbutler.Client.{Fetched}
use ticketbutler_proxy.Aggregate.Summary.{Options}
use ticketbutler_proxy.Snapshot.Snapshot.{Snapshot, Codec, encode}
use ticketbutler_proxy.Snapshot.Goroutines.{
  Goroutine, Shared, Call, Input, enter, to_save, to_load, to_encode, advance, holds, idle, locking,
  fetching, saving, setting, unlocking, reading, loading, publishing, refresh, current,
}

-- Before it sets the cache, after the save.
unfoldable pub has_saved : {F : Type 0} → Goroutine F → Bool
has_saved idle = false
has_saved locking = false
has_saved fetching = false
has_saved (saving snap bytes) = false
has_saved (setting snap) = true
has_saved unlocking = false
has_saved reading = false
has_saved loading = false
has_saved (publishing snap) = false

has_saved-enter : (F : Type 0) (c : Call) → has_saved (enter {F = F} c) ≡ false
unfolding has_saved enter
has_saved-enter F refresh = refl
has_saved-enter F current = refl

has_saved-to_save :
    {F : Type 0} (snap : Snapshot F) (r : Result Bytes) → has_saved (to_save snap r) ≡ false
unfolding has_saved to_save
has_saved-to_save snap (err e) = refl
has_saved-to_save snap (ok bytes) = refl

to_load_filled : {F : Type 0} (cached : Option (Snapshot F)) → cached ≢ none → to_load cached ≡ idle
unfolding to_load
to_load_filled none filled = absurd (filled refl)
to_load_filled (some snap) filled = refl

module _ {F S : Type 0} ⦃float : Float F⦄ ⦃case : CaseTable⦄ (codec : Codec F) (store : Store S)
    (opts : Options) where
  -- What a goroutine carries is encoded, is what was saved last, and is not read from the store.
  abbrev pub Carries : Option (Snapshot F) → Goroutine F → Type 0
  Carries latest idle = Unit
  Carries latest locking = Unit
  Carries latest fetching = Unit
  Carries latest (saving snap bytes) = encode codec snap ≡ ok bytes
  Carries latest (setting snap) = latest ≡ some snap
  Carries latest unlocking = Unit
  Carries latest reading = Unit
  Carries latest loading = ⊥
  Carries latest (publishing snap) = ⊥

  Carries-enter : (latest : Option (Snapshot F)) (c : Call) → Carries latest (enter c)
  unfolding enter
  Carries-enter latest refresh = tt
  Carries-enter latest current = tt

  Carries-to_save :
      (latest : Option (Snapshot F)) (snap : Snapshot F) (r : Result Bytes)
      → encode codec snap ≡ r
      → Carries latest (to_save snap r)
  unfolding to_save
  Carries-to_save latest snap (err e) h = tt
  Carries-to_save latest snap (ok bytes) h = h

  Carries-to_encode :
      (latest : Option (Snapshot F)) (r : Result (Fetched F)) (now : ℤ)
      → Carries latest (to_encode codec store opts r now)
  unfolding to_encode
  Carries-to_encode latest (err e) now = tt
  Carries-to_encode latest (ok result) now = Carries-to_save latest _ _ refl

  has_saved-to_encode :
      (r : Result (Fetched F)) (now : ℤ) → has_saved (to_encode codec store opts r now) ≡ false
  unfolding has_saved to_encode
  has_saved-to_encode (err e) now = refl
  has_saved-to_encode (ok result) now = has_saved-to_save _ _

  -- A goroutine without the lock carries nothing that a save could outdate.
  pub outdates_nothing :
      (latest later : Option (Snapshot F)) (g : Goroutine F)
      → holds g ≡ false
      → Carries latest g
      → Carries later g
  unfolding holds
  outdates_nothing latest later idle h c = tt
  outdates_nothing latest later locking h c = tt
  outdates_nothing latest later fetching h c = tt
  outdates_nothing latest later (saving snap bytes) h c = c
  outdates_nothing latest later (setting snap) h c = absurd (ground (arith, h))
  outdates_nothing latest later unlocking h c = tt
  outdates_nothing latest later reading h c = tt
  outdates_nothing latest later loading h c = c
  outdates_nothing latest later (publishing snap) h c = c

  -- What a step does while the cache is filled.
  pub data Effect (m : Shared F S) (g : Goroutine F) : Shared F S → Goroutine F → Type 0 where
    stays :
        (locked : Bool) (g' : Goroutine F)
        → has_saved g ≡ false
        → has_saved g' ≡ false
        → Carries m.latest g'
        → Effect m g (record m { locked = locked }) g'
    saves :
        (snap : Snapshot F) (bytes : Bytes)
        → holds g ≡ true
        → encode codec snap ≡ ok bytes
        → Effect m g
            (record m {
              stored = (store.save bytes m.stored).1;
              latest = some snap;
              outcome = (store.save bytes m.stored).0;
            })
            (setting snap)
    sets :
        (snap : Snapshot F)
        → m.latest ≡ some snap
        → Effect m g (record m { cached = some snap }) unlocking

  abbrev pub Affects : Shared F S → Goroutine F → Option (Shared F S × Goroutine F) → Type 0
  Affects m g none = Unit
  Affects m g (some (m', g')) = Effect m g m' g'

  pub advance-Affects :
      (x : Input F) (m : Shared F S) (g : Goroutine F)
      → m.cached ≢ none
      → Carries m.latest g
      → Affects m g (advance codec store opts x m g)
  unfolding advance holds has_saved
  advance-Affects x m idle filled c =
      stays m.locked (enter x.call) refl (has_saved-enter F x.call) (Carries-enter m.latest x.call)
  advance-Affects x m locking filled c = elim (Bool-cases m.locked) [
    | inl taken ↦ rw taken tt
    | inr free ↦ rw free (stays true fetching refl refl tt)
  ]
  advance-Affects x m fetching filled c =
      stays m.locked (to_encode codec store opts x.fetch x.now) refl
        (has_saved-to_encode x.fetch x.now) (Carries-to_encode m.latest x.fetch x.now)
  advance-Affects x m (saving snap bytes) filled c = saves snap bytes refl c
  advance-Affects x m (setting snap) filled c = sets snap c
  advance-Affects x m unlocking filled c = stays false idle refl refl tt
  advance-Affects x m reading filled c =
      rw (to_load_filled m.cached filled) (stays m.locked idle refl refl tt)
  advance-Affects x m loading filled c = absurd c
  advance-Affects x m (publishing snap) filled c = absurd c
