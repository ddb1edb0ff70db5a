-- ===== src/Snapshot/Refresher/Laws.antt =====
-- internal/snapshot/refresher.go: a refresh, and the reads after it.
use ticketbutler_proxy.Common.{◌≡◌, refl, ◌⊎◌, none, some, arith, inl, inr}
use ticketbutler_proxy.Int.{ℤ}
use ticketbutler_proxy.Text.{CaseTable}
use ticketbutler_proxy.Float.{Float}
use ticketbutler_proxy.Errors.{Bytes, Err, Result, ok, err}
use ticketbutler_proxy.Store.{Store, IsStore}
use ticketbutler_proxy.Ticketbutler.Client.{Fetched}
use ticketbutler_proxy.Aggregate.Summary.{Options}
use ticketbutler_proxy.Snapshot.Snapshot.{Snapshot, Codec, build, encode, decode}
use ticketbutler_proxy.Snapshot.Refresher.{State, after_save, after_encode, refresh, current}

pub Result-cases : {A : Type 0} (r : Result A) → ((e : Err) × (r ≡ err e)) ⊎ ((a : A) × (r ≡ ok a))
Result-cases (err e) = inl (e, refl)
Result-cases (ok a) = inr (a, refl)

module _ {F S : Type 0} (snap : Snapshot F) where
  after_save-cached :
      (saved : Result (Unit {0}) × S)
      → ((after_save snap saved).1.cached ≡ some snap)
        × ((after_save snap saved).0.snapshot ≡ some snap)
        × ((after_save snap saved).1.stored ≡ saved.1)
  unfolding after_save
  after_save-cached (ok _, s) = (refl, refl, refl)
  after_save-cached (err e, s) = (refl, refl, refl)

  saved_of_no_error :
      (saved : Result (Unit {0}) × S) → (after_save snap saved).0.error ≡ none → saved.0 ≡ ok tt
  unfolding after_save
  saved_of_no_error (ok _, s) h = refl
  saved_of_no_error (err e, s) h = cc

module _ {F S : Type 0} ⦃float : Float F⦄ ⦃case : CaseTable⦄ (codec : Codec F) (store : Store S)
    (opts : Options) where
  after_encode-keeps :
      (snap : Snapshot F) (encoded : Result Bytes) (st : State F S)
      → (after_encode codec store opts snap encoded st).0.snapshot ≡ none
      → (after_encode codec store opts snap encoded st).1 ≡ st
  unfolding after_encode
  after_encode-keeps snap (err e) st h = refl
  after_encode-keeps snap (ok bytes) st h =
      cc (h, (after_save-cached snap (store.save bytes st.stored)).1)

  current_of_cached :
      (st : State F S) {snap : Snapshot F}
      → st.cached ≡ some snap
      → current codec store opts st ≡ (ok snap, st)
  unfolding current
  current_of_cached st h = ground (arith, h)

  load_of_decoded :
      (s : S) {bytes : Bytes} {snap : Snapshot F}
      → store.load s ≡ ok bytes
      → decode codec bytes ≡ ok snap
      → (current codec store opts (record { cached = none; stored = s })).0 ≡ ok snap
  unfolding current
  load_of_decoded s h k = ground (arith, h, k)

  -- A refresh that returns no snapshot, since fetching or encoding failed, leaves the cached
  -- snapshot and the store as they were.
  pub refresh_keeps :
      (fetch : Result (Fetched F)) (now : ℤ) (st : State F S)
      → (refresh codec store opts fetch now st).0.snapshot ≡ none
      → (refresh codec store opts fetch now st).1 ≡ st
  unfolding refresh
  refresh_keeps (err e) now st h = refl
  refresh_keeps (ok result) now st h =
      after_encode-keeps (build result now opts) (encode codec (build result now opts)) st h

  -- Once a fetch is encoded, the snapshot built from it is what reads return, whether or not it could
  -- be stored, and reading changes nothing.
  pub current-refresh :
      (result : Fetched F) (now : ℤ) (st : State F S) {bytes : Bytes}
      → encode codec (build result now opts) ≡ ok bytes
      → current codec store opts (refresh codec store opts (ok result) now st).1
        ≡ (ok (build result now opts), (refresh codec store opts (ok result) now st).1)
  unfolding refresh
  current-refresh result now st {bytes} h = rw h (
      current_of_cached _
        (after_save-cached (build result now opts) (store.save bytes st.stored)).0)

  -- Reading does not change the store, and a second read gives what the first gave.
  pub current_stable :
      (st : State F S)
      → ((current codec store opts st).1.stored ≡ st.stored)
        × (current codec store opts (current codec store opts st).1 ≡ current codec store opts st)
  unfolding current
  current_stable st = ground arith

  -- Where the store keeps its contract, a process that starts after a refresh without error reads
  -- what the refresh's snapshot is decoded as, if its encoding is decoded at all.
  pub restart-refresh :
      (result : Fetched F) (now : ℤ) (st : State F S) (restored : Snapshot F)
      → ((bytes : Bytes)
          → encode codec (build result now opts) ≡ ok bytes
          → decode codec bytes ≡ ok restored)
      → IsStore store
      → (refresh codec store opts (ok result) now st).0.error ≡ none
      → (current codec store opts (record {
        cached = none;
        stored = (refresh codec store opts (ok result) now st).1.stored;
      })).0
        ≡ ok restored
  unfolding refresh
  restart-refresh result now st restored decoded lawful h =
      elim (Result-cases (encode codec (build result now opts))) [
        | inl (e, failed) ↦ cc (rw failed at h)
        | inr (bytes, encoded) ↦
            let snap = build result now opts in
            let saved = saved_of_no_error snap (store.save bytes st.stored) (rw encoded at h) in
            rw encoded (
              load_of_decoded _
                (rw (after_save-cached snap (store.save bytes st.stored)).2
                  (lawful.load-save bytes st.stored saved))
                (decoded bytes encoded))
      ]
