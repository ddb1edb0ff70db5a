-- ===== src/Main/Restart.antt =====
-- cmd/tbproxy/main.go: what a refresh by one process leaves to the next.
use ticketbutler_proxy.Common.{◌≡◌, refl, ap, sym, ◌∙◌, Option, none, some}
use ticketbutler_proxy.Int.{ℤ}
use ticketbutler_proxy.Float.{Float}
use ticketbutler_proxy.Text.{CaseTable}
use ticketbutler_proxy.Errors.{Bytes, Err, Result, ok, err}
use ticketbutler_proxy.Store.{Store, IsStore}
use ticketbutler_proxy.Store.Memory.{Memory, new_memory, memory_store-IsStore}
use ticketbutler_proxy.Store.Gcs.{Cloud, IsCloud, Gcs, gcs_store-IsStore}
use ticketbutler_proxy.Ticketbutler.Client.{World, Fetched, fetch_orders}
use ticketbutler_proxy.Aggregate.Summary.{Options}
use ticketbutler_proxy.Snapshot.Snapshot.{Snapshot, Codec, build, encode, decode}
use ticketbutler_proxy.Snapshot.Refresher.{State, refresh, load_snapshot, after_load, current, warm}
use ticketbutler_proxy.Snapshot.Refresher.Laws.{current_stable, restart-refresh}
use ticketbutler_proxy.Main.{
  Backend, in_memory, in_bucket, Process, built, store_of, fresh, serve, ended, refresh_once,
}

module _ {C : Type 0} (cloud : Cloud C) where
  -- Either store of a process keeps the contract of a store.
  pub store_of-IsStore : IsCloud cloud → (backend : Backend) → IsStore (store_of cloud backend)
  store_of-IsStore h in_memory = record {
    load-save = λ bytes s saved. memory_store-IsStore.load-save bytes s.0 saved;
    load-failed = λ bytes s e failed. memory_store-IsStore.load-failed bytes s.0 e failed;
  }
  store_of-IsStore h (in_bucket g) = record {
    load-save = λ bytes s saved. (gcs_store-IsStore cloud g h).load-save bytes s.1 saved;
    load-failed = λ bytes s e failed. (gcs_store-IsStore cloud g h).load-failed bytes s.1 e failed;
  }

  -- A bucket's store does not depend on the memory of the process.
  module _ {F : Type 0} ⦃float : Float F⦄ ⦃case : CaseTable⦄ (codec : Codec F) where
    -- The state of a process that has cached nothing.
    abbrev emptied : Memory × C → State F (Memory × C)
    emptied s = record { cached = none; stored = s }

    error_of_ended : (e : Option Err) → ended cloud codec e ≡ none → e ≡ none
    error_of_ended none h = refl
    error_of_ended (some e) h = cc

    after_load-result :
        (read : Result (Snapshot F)) (st : State F (Memory × C)) → (after_load read st).0 ≡ read
    unfolding after_load
    after_load-result (ok snap) st = refl
    after_load-result (err e) st = refl

    current-emptied :
        (store : Store (Memory × C)) (opts : Options) (s : Memory × C)
        → (current codec store opts (emptied s)).0 ≡ load_snapshot codec store opts s
    unfolding current
    current-emptied store opts s = after_load-result _ (emptied s)

    current-bucket :
        (p : Process) (g : Gcs) (s : Memory × C)
        → (current codec (store_of cloud (in_bucket g)) p.options (emptied s)).0
          ≡ (current codec (store_of cloud (in_bucket g)) p.options (fresh cloud s.1)).0
    unfolding load_snapshot
    current-bucket p g s = current-emptied _ _ s ∙ sym (current-emptied _ _ (new_memory, s.1))

    same_bucket :
        (p : Process) (g : Gcs) (s : Memory × C)
        → p.backend ≡ in_bucket g
        → (current codec (store_of cloud p.backend) p.options (fresh cloud s.1)).0
          ≡ (current codec (store_of cloud p.backend) p.options (emptied s)).0
    same_bucket p g s h = rw h (sym (current-bucket p g s))

    refresh_once-ok :
        (p : Process) (w : World F) (now : ℤ) (c : C) (result : Fetched F)
        → (fetch_orders w p.client).0 ≡ ok result
        → refresh_once cloud codec (built p) w now c ≡ (
            let out =
              refresh codec (store_of cloud p.backend) p.options (ok result) now (fresh cloud c) in
            (ended cloud codec out.0.error, out.1.stored.1))
    unfolding refresh_once
    refresh_once-ok p w now c result h =
        ap
          (λ fetch.
            let out =
              refresh codec (store_of cloud p.backend) p.options fetch now (fresh cloud c) in
            (ended cloud codec out.0.error, out.1.stored.1))
          h

    -- Reading by a process that serves is reading by the same process before it is warm.
    current-serve :
        (p : Process) (c : C)
        → (current codec (store_of cloud p.backend) p.options (serve cloud codec p c)).0
          ≡ (current codec (store_of cloud p.backend) p.options (fresh cloud c)).0
    unfolding serve warm
    current-serve p c =
        ap (λ out. out.0)
          (current_stable codec (store_of cloud p.backend) p.options (fresh cloud c)).1

    -- Where the service keeps what it documents, a process with a bucket that starts after a run of
    -- `refresh` without error reads what the run's snapshot is decoded as, if its encoding is decoded
    -- at all.
    pub serve-refresh_once :
        (p : Process) (g : Gcs) (w : World F) (now : ℤ) (c : C) (result : Fetched F)
        (restored : Snapshot F)
        → ((bytes : Bytes)
            → encode codec (build result now p.options) ≡ ok bytes
            → decode codec bytes ≡ ok restored)
        → IsCloud cloud
        → p.backend ≡ in_bucket g
        → (fetch_orders w p.client).0 ≡ ok result
        → (refresh_once cloud codec (built p) w now c).0 ≡ none
        → (current codec
            (store_of cloud p.backend)
            p.options
            (serve cloud codec p (refresh_once cloud codec (built p) w now c).1)).0
          ≡ ok restored
    serve-refresh_once p g w now c result restored decoded h in_g fetched done =
        let store = store_of cloud p.backend in
        let out = refresh codec store p.options (ok result) now (fresh cloud c) in
        let ran = refresh_once-ok p w now c result fetched in
        current-serve p _
        ∙ ap (λ run. (current codec store p.options (fresh cloud run.1)).0) ran
        ∙ same_bucket p g out.1.stored in_g
        ∙ restart-refresh codec store p.options result now (fresh cloud c) restored decoded
            (store_of-IsStore h p.backend) (error_of_ended out.0.error (rw ran at done))
