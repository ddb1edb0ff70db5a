-- ===== src/Store.antt =====
-- internal/store/store.go: the interface of a snapshot store, with what its clients rely on.
pub mod Memory
pub mod Gcs
use ticketbutler_proxy.Common.{◌≡◌, ◌⊎◌}
use ticketbutler_proxy.Errors.{Bytes, Err, Result, ok, err}
use ticketbutler_proxy.Text.{Text}

-- `S` is the state behind the store: a process's memory, or a bucket.
pub record Store (S : Type 0) : Type 0 where
  pub load : S → Result Bytes
  pub save : Bytes → S → Result (Unit {0}) × S
  pub describe : Text

-- After a successful save a load returns what it was given; after a failed one it returns that, or the same as
-- before.
pub record IsStore {S : Type 0} (store : Store S) : Type 0 where
  pub load-save :
      (bytes : Bytes) (s : S)
      → (store.save bytes s).0 ≡ ok tt
      → store.load (store.save bytes s).1 ≡ ok bytes
  pub load-failed :
      (bytes : Bytes) (s : S) (e : Err)
      → (store.save bytes s).0 ≡ err e
      → (store.load (store.save bytes s).1 ≡ store.load s)
        ⊎ (store.load (store.save bytes s).1 ≡ ok bytes)
