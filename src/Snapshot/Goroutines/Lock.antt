-- ===== src/Snapshot/Goroutines/Lock.antt =====
-- At most one goroutine is between the lock and the unlock of `refreshMu`.
use ticketbutler_proxy.Common.{
  ℕ, ◌<◌, ◌≡◌, refl, sym, ◌∙◌, ap, Bool, true, false, Option, none, some, arith, inl, inr,
  Bool-cases, ◌==◌, ◌⊎◌,
}
use mathlib.Core.Path.{subst}
use ticketbutler_proxy.Text.{CaseTable}
use ticketbutler_proxy.Float.{Float}
use ticketbutler_proxy.Errors.{Bytes, Result, ok, err}
use ticketbutler_proxy.Store.{Store}
use ticketbutler_proxy.Aggregate.Summary.{Options}
use ticketbutler_proxy.Snapshot.Snapshot.{Snapshot, Codec}
use ticketbutler_proxy.Snapshot.Refresher.{load_snapshot}
use ticketbutler_proxy.Ticketbutler.Client.{Fetched}
use ticketbutler_proxy.Int.{ℤ}
use ticketbutler_proxy.Snapshot.Goroutines.{
  Goroutine, Shared, Call, Input, System, enter, to_save, to_publish, to_load, update, to_encode,
  advance, Step, step, Run, start, then, holds, quiet, idle, locking, fetching, saving, setting,
  unlocking, reading, loading, publishing, refresh, current,
}

pub record IsLocked {F S : Type 0} (n : ℕ) (s : System F S) : Type 0 where
  pub free : s.shared.locked ≡ false → (i : ℕ) → holds (s.goroutines i) ≡ false
  pub unique : (i j : ℕ) → holds (s.goroutines i) ≡ true → holds (s.goroutines j) ≡ true → i ≡ j
  pub owner : s.shared.locked ≡ true → (k : ℕ) × (k < n) × (holds (s.goroutines k) ≡ true)

-- What a step does to the lock: nothing, it takes it, or it gives it back.
pub data Locking : Bool → Bool → Bool → Bool → Type 0 where
  kept : (b h : Bool) → Locking b h b h
  taken : Locking false false true true
  released : (b : Bool) → Locking b true false false

holds-enter : (F : Type 0) (c : Call) → holds (enter {F = F} c) ≡ false
unfolding holds enter
holds-enter F refresh = refl
holds-enter F current = refl

holds-to_save : {F : Type 0} (snap : Snapshot F) (r : Result Bytes) → holds (to_save snap r) ≡ true
unfolding holds to_save
holds-to_save snap (err e) = refl
holds-to_save snap (ok bytes) = refl

holds-to_publish : {F : Type 0} (r : Result (Snapshot F)) → holds (to_publish r) ≡ false
unfolding holds to_publish
holds-to_publish (err e) = refl
holds-to_publish (ok snap) = refl

holds-to_load : {F : Type 0} (cached : Option (Snapshot F)) → holds (to_load cached) ≡ false
unfolding holds to_load
holds-to_load none = refl
holds-to_load (some snap) = refl

pub update_same : {A : Type 0} (f : ℕ → A) (i : ℕ) (a : A) → update f i a i ≡ a
unfolding update
update_same f i a = ground arith

pub update_other :
    {A : Type 0} (f : ℕ → A) (i : ℕ) (a : A) (j : ℕ) → (i == j) ≡ false → update f i a j ≡ f j
unfolding update
update_other f i a j h = rw h

module _ {F S : Type 0} ⦃float : Float F⦄ ⦃case : CaseTable⦄ (codec : Codec F) (store : Store S)
    (opts : Options) where
  holds-to_encode :
      (r : Result (Fetched F)) (now : ℤ) → holds (to_encode codec store opts r now) ≡ true
  unfolding holds to_encode
  holds-to_encode (err e) now = refl
  holds-to_encode (ok result) now = holds-to_save _ _

  abbrev Allowed : Bool → Bool → Option (Shared F S × Goroutine F) → Type 0
  Allowed b h none = Unit
  Allowed b h (some (m, g)) = Locking b h m.locked (holds g)

  advance-Allowed :
      (x : Input F) (m : Shared F S) (g : Goroutine F)
      → Allowed m.locked (holds g) (advance codec store opts x m g)
  unfolding advance holds
  advance-Allowed x m idle = rw (holds-enter F x.call) (kept m.locked false)
  advance-Allowed x m locking = elim (Bool-cases m.locked) [
    | inl taken_by ↦ rw taken_by tt
    | inr free ↦ rw free taken
  ]
  advance-Allowed x m fetching = rw (holds-to_encode x.fetch x.now) (kept m.locked true)
  advance-Allowed x m (saving snap bytes) = kept m.locked true
  advance-Allowed x m (setting snap) = kept m.locked true
  advance-Allowed x m unlocking = released m.locked
  advance-Allowed x m reading = rw (holds-to_load m.cached) (kept m.locked false)
  advance-Allowed x m loading =
      rw (holds-to_publish (load_snapshot codec store opts m.stored)) (kept m.locked false)
  advance-Allowed x m (publishing snap) = kept m.locked false

  pub advance-Locking :
      (x : Input F) (m m' : Shared F S) (g g' : Goroutine F)
      → advance codec store opts x m g ≡ some (m', g')
      → Locking m.locked (holds g) m'.locked (holds g')
  advance-Locking x m m' g g' h = subst (Allowed m.locked (holds g)) h (advance-Allowed x m g)

pub update-cases :
    {A : Type 0} (f : ℕ → A) (i : ℕ) (a : A) (j : ℕ)
    → ((j ≡ i) × (update f i a j ≡ a)) ⊎ (((i == j) ≡ false) × (update f i a j ≡ f j))
update-cases f i a j = elim (Bool-cases (i == j)) [
  | inl same ↦
      let e : i ≡ j = ground (arith, same) in
      inl (sym e, ap (update f i a) (sym e) ∙ update_same f i a)
  | inr other ↦ inr (other, update_other f i a j other)
]

-- The lock and its holders, after goroutine `i` has made a step.
module _ {F S : Type 0} (n : ℕ) (s : System F S) (i : ℕ) (m : Shared F S) (g : Goroutine F) where
  abbrev after : System F S
  after = record { shared = m; goroutines = update s.goroutines i g }

  holds_same :
      holds (s.goroutines i) ≡ holds g
      → (j : ℕ) → holds (after.goroutines j) ≡ holds (s.goroutines j)
  holds_same h j = elim (update-cases s.goroutines i g j) [
    | inl (e, at) ↦ ap holds at ∙ sym h ∙ ap (λ k. holds (s.goroutines k)) (sym e)
    | inr (other, at) ↦ ap holds at
  ]

  holds_taken :
      ((j : ℕ) → holds (s.goroutines j) ≡ false)
      → (j : ℕ) → holds (after.goroutines j) ≡ true
      → j ≡ i
  holds_taken h j k = elim (update-cases s.goroutines i g j) [
    | inl (e, at) ↦ e
    | inr (other, at) ↦ absurd (ground (arith, sym (h j) ∙ sym (ap holds at) ∙ k))
  ]

  holds_released :
      IsLocked n s
      → holds (s.goroutines i) ≡ true
      → holds g ≡ false
      → (j : ℕ) → holds (after.goroutines j) ≡ false
  holds_released inv h k j = elim (update-cases s.goroutines i g j) [
    | inl (e, at) ↦ ap holds at ∙ k
    | inr (other, at) ↦ elim (Bool-cases (holds (s.goroutines j))) [
      | inl held ↦ absurd (ground (arith, inv.unique i j h held, other))
      | inr loose ↦ ap holds at ∙ loose
    ]
  ]

  Locking-IsLocked :
      {b h b' h' : Bool}
      → Locking b h b' h'
      → s.shared.locked ≡ b
      → holds (s.goroutines i) ≡ h
      → m.locked ≡ b'
      → holds g ≡ h'
      → i < n
      → IsLocked n s
      → IsLocked n after
  Locking-IsLocked (kept b h) e hi e' hg below inv =
      let same = holds_same (hi ∙ sym hg) in
      record {
        free = λ u j. same j ∙ inv.free (e ∙ sym e' ∙ u) j;
        unique = λ j k hj hk. inv.unique j k (sym (same j) ∙ hj) (sym (same k) ∙ hk);
        owner = λ u. let (k, lt, hk) = inv.owner (e ∙ sym e' ∙ u) in (k, lt, same k ∙ hk);
      }
  Locking-IsLocked taken e hi e' hg below inv =
      let only = holds_taken (inv.free e) in
      record {
        free = λ u j. absurd (ground (arith, sym e' ∙ u));
        unique = λ j k hj hk. only j hj ∙ sym (only k hk);
        owner = λ u. (i, below, ap holds (update_same s.goroutines i g) ∙ hg);
      }
  Locking-IsLocked (released b) e hi e' hg below inv =
      let loose = holds_released inv hi hg in
      record {
        free = λ u. loose;
        unique = λ j k hj hk. absurd (ground (arith, sym (loose j) ∙ hj));
        owner = λ u. absurd (ground (arith, sym e' ∙ u));
      }

pub quiet-IsLocked :
    {F S : Type 0} (n : ℕ) (cached : Option (Snapshot F)) (stored : S)
    → IsLocked n (quiet cached stored)
unfolding holds
quiet-IsLocked n cached stored = record {
  free = λ u i. refl;
  unique = λ i j h k. absurd (ground (arith, h));
  owner = λ u. absurd (ground (arith, u));
}

module _ {F S : Type 0} ⦃float : Float F⦄ ⦃case : CaseTable⦄ (codec : Codec F) (store : Store S)
    (opts : Options) where
  pub Step-IsLocked :
      {n : ℕ} {s t : System F S} → Step codec store opts n s t → IsLocked n s → IsLocked n t
  Step-IsLocked {n} {s} (step i x m g below moved) inv =
      Locking-IsLocked n s i m g
        (advance-Locking codec store opts x s.shared m (s.goroutines i) g moved) refl refl refl refl
        below inv

  pub Run-IsLocked :
      {n : ℕ} {s t : System F S} → Run codec store opts n s t → IsLocked n s → IsLocked n t
  Run-IsLocked start inv = inv
  Run-IsLocked (then r st) inv = Step-IsLocked st (Run-IsLocked r inv)

  -- However many goroutines call `Refresh` and `Current`, in whatever order they make their steps: at most
  -- one of them is between the lock and the unlock of `refreshMu`.
  pub refreshes_exclude :
      {n : ℕ} {cached : Option (Snapshot F)} {stored : S} {t : System F S} (i j : ℕ)
      → Run codec store opts n (quiet cached stored) t
      → holds (t.goroutines i) ≡ true
      → holds (t.goroutines j) ≡ true
      → i ≡ j
  refreshes_exclude {n} {cached} {stored} i j r =
      (Run-IsLocked r (quiet-IsLocked n cached stored)).unique i j
