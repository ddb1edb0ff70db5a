-- ===== src/Snapshot/Goroutines/Fresh.antt =====
-- The cached snapshot and the stored one, among any number of goroutines.
use ticketbutler_proxy.Common.{
  ℕ, ◌≡◌, ◌≢◌, refl, sym, ◌∙◌, ap, true, false, Option, none, some, arith, inl, inr, Bool-cases,
  ◌==◌,
}
use mathlib.Core.Path.{subst}
use ticketbutler_proxy.Text.{CaseTable}
use ticketbutler_proxy.Float.{Float}
use ticketbutler_proxy.Errors.{Result, ok, err}
use ticketbutler_proxy.Store.{Store, IsStore}
use ticketbutler_proxy.Aggregate.Summary.{Options}
use ticketbutler_proxy.Snapshot.Snapshot.{Snapshot, Codec, encode}
use ticketbutler_proxy.Snapshot.Goroutines.{
  Goroutine, Shared, System, update, Step, step, Run, start, then, holds, quiet, setting, unlocking,
}
use ticketbutler_proxy.Snapshot.Goroutines.Lock.{
  IsLocked, update-cases, update_same, Run-IsLocked, quiet-IsLocked,
}
use ticketbutler_proxy.Snapshot.Goroutines.Effect.{
  has_saved, Carries, outdates_nothing, Effect, stays, saves, sets, Affects, advance-Affects,
}

module _ {F S : Type 0} ⦃float : Float F⦄ ⦃case : CaseTable⦄ (codec : Codec F) (store : Store S)
    (opts : Options) where
  -- Where the last save went well, the store holds what it was given.
  abbrev pub Holds : Option (Snapshot F) → Result (Unit {0}) → S → Type 0
  Holds (some snap) (ok _) stored = store.load stored ≡ encode codec snap
  Holds (some snap) (err e) stored = Unit
  Holds none outcome stored = Unit

  -- The cache is filled, and holds what was saved last, or a refresh is about to put it there.
  pub record IsFresh (s : System F S) : Type 0 where
    pub filled : s.shared.cached ≢ none
    pub carries : (i : ℕ) → Carries codec store opts s.shared.latest (s.goroutines i)
    pub follows : ((i : ℕ) → has_saved (s.goroutines i) ≡ false) → s.shared.cached ≡ s.shared.latest
    pub kept : Holds s.shared.latest s.shared.outcome s.shared.stored

  Holds-load :
      (latest : Option (Snapshot F)) (outcome : Result (Unit {0})) (stored : S) {snap : Snapshot F}
      → latest ≡ some snap
      → outcome ≡ ok tt
      → Holds latest outcome stored
      → store.load stored ≡ encode codec snap
  Holds-load (some snap) (ok _) stored e k h = cc
  Holds-load (some snap) (err x) stored e k h = cc
  Holds-load none outcome stored e k h = cc

  Holds-save :
      (snap : Snapshot F) (outcome : Result (Unit {0})) (stored : S)
      → (outcome ≡ ok tt → store.load stored ≡ encode codec snap)
      → Holds (some snap) outcome stored
  Holds-save snap (ok _) stored h = h refl
  Holds-save snap (err e) stored h = tt

  module _ (lawful : IsStore store) (s : System F S) (i : ℕ) (fresh : IsFresh s) where
    abbrev before : Goroutine F
    before = s.goroutines i

    -- The other goroutines stand where they stood.
    others_carry :
        (latest : Option (Snapshot F)) (g : Goroutine F)
        → Carries codec store opts latest g
        → ((j : ℕ) → (i == j) ≡ false → Carries codec store opts latest (s.goroutines j))
        → (j : ℕ) → Carries codec store opts latest (update s.goroutines i g j)
    others_carry latest g c others j = elim (update-cases s.goroutines i g j) [
      | inl (e, at) ↦ rw at c
      | inr (other, at) ↦ rw at (others j other)
    ]

    none_saved :
        (g : Goroutine F)
        → has_saved before ≡ false
        → ((j : ℕ) → has_saved (update s.goroutines i g j) ≡ false)
        → (j : ℕ) → has_saved (s.goroutines j) ≡ false
    none_saved g h after j = elim (update-cases s.goroutines i g j) [
      | inl (e, at) ↦ ap (λ k. has_saved (s.goroutines k)) e ∙ h
      | inr (other, at) ↦ ap has_saved (sym at) ∙ after j
    ]

    saved_then :
        (snap : Snapshot F)
        → ((j : ℕ) → has_saved (update s.goroutines i (setting snap) j) ≡ false)
        → ⊥
    unfolding has_saved
    saved_then snap after =
        let e : true ≡ false =
          ap has_saved (sym (update_same s.goroutines i (setting snap))) ∙ after i in
        ground (arith, e)

    Effect-IsFresh :
        {m : Shared F S} {g : Goroutine F}
        → ((j : ℕ) → holds before ≡ true → (i == j) ≡ false → holds (s.goroutines j) ≡ false)
        → Effect codec store opts s.shared before m g
        → IsFresh (record { shared = m; goroutines = update s.goroutines i g })
    Effect-IsFresh alone (stays locked g h k c) = record {
      filled = fresh.filled;
      carries = others_carry s.shared.latest g c (λ j other. fresh.carries j);
      follows = λ after. fresh.follows (none_saved g h after);
      kept = fresh.kept;
    }
    Effect-IsFresh alone (saves snap bytes h encoded) = record {
      filled = fresh.filled;
      carries = others_carry (some snap) (setting snap) refl (λ j other.
          outdates_nothing codec store opts s.shared.latest (some snap) (s.goroutines j)
            (alone j h other) (fresh.carries j));
      follows = λ after. absurd (saved_then snap after);
      kept =
          Holds-save snap _ _ (λ saved. lawful.load-save bytes s.shared.stored saved ∙ sym encoded);
    }
    Effect-IsFresh alone (sets snap saved) = record {
      filled = λ e. cc;
      carries = others_carry s.shared.latest unlocking tt (λ j other. fresh.carries j);
      follows = λ after. sym saved;
      kept = fresh.kept;
    }

  quiet-IsFresh :
      (snap : Snapshot F) (stored : S)
      → store.load stored ≡ encode codec snap
      → IsFresh (quiet (some snap) stored)
  quiet-IsFresh snap stored h = record {
    filled = λ e. cc;
    carries = λ i. tt;
    follows = λ after. refl;
    kept = h;
  }

  module _ (lawful : IsStore store) {n : ℕ} where
    alone :
        {s : System F S} (i j : ℕ)
        → IsLocked n s
        → holds (s.goroutines i) ≡ true
        → (i == j) ≡ false
        → holds (s.goroutines j) ≡ false
    alone {s} i j locked h other = elim (Bool-cases (holds (s.goroutines j))) [
      | inl both ↦ absurd (ground (arith, locked.unique i j h both, other))
      | inr loose ↦ loose
    ]

    Step-IsFresh :
        {s t : System F S} → Step codec store opts n s t → IsLocked n s → IsFresh s → IsFresh t
    Step-IsFresh {s} (step i x m g below moved) locked fresh =
        Effect-IsFresh lawful s i fresh (λ j h other. alone i j locked h other)
          (subst (Affects codec store opts s.shared (s.goroutines i)) moved (
            advance-Affects codec store opts x s.shared (s.goroutines i) fresh.filled
              (fresh.carries i)))

    Run-IsFresh :
        {s t : System F S} → Run codec store opts n s t → IsLocked n s → IsFresh s → IsFresh t
    Run-IsFresh start locked fresh = fresh
    Run-IsFresh (then r st) locked fresh =
        Step-IsFresh st (Run-IsLocked codec store opts r locked) (Run-IsFresh r locked fresh)

    -- From a process whose cache holds what its store holds, with any number of goroutines that read and
    -- refresh in any order: whenever no refresh is between its save and its write of the cache, and the
    -- last save went well, the store holds the encoding of the cached snapshot, where the store keeps its
    -- contract.
    pub cache_follows_store :
        {t : System F S} {first snap : Snapshot F} {stored : S}
        → store.load stored ≡ encode codec first
        → Run codec store opts n (quiet (some first) stored) t
        → ((i : ℕ) → has_saved (t.goroutines i) ≡ false)
        → t.shared.cached ≡ some snap
        → t.shared.outcome ≡ ok tt
        → store.load t.shared.stored ≡ encode codec snap
    cache_follows_store {t} {first} {snap} {stored} agrees r settled cached went_well =
        let fresh =
          Run-IsFresh r (quiet-IsLocked n (some first) stored)
            (quiet-IsFresh first stored agrees) in
        Holds-load t.shared.latest t.shared.outcome t.shared.stored
          (sym (fresh.follows settled) ∙ cached) went_well fresh.kept
