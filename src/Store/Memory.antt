-- ===== src/Store/Memory.antt =====
-- internal/store/memory.go: the store in a process's memory. Load and Save copy, so a value stands
-- for the slice; `none` is the nil slice.
pub mod Slices
use ticketbutler_proxy.Common.{inr, refl, Option, none, some}
use ticketbutler_proxy.Errors.{Bytes, Result, ok, err, not_found}
use ticketbutler_proxy.Text.{codes}
use ticketbutler_proxy.Store.{Store, IsStore}

abbrev pub Memory : Type 0
Memory = Option Bytes

abbrev pub new_memory : Memory
new_memory = none

unfoldable pub load : Memory → Result Bytes
load none = err not_found
load (some bytes) = ok bytes

unfoldable pub save : Bytes → Memory → Result (Unit {0}) × Memory
save bytes m = (ok tt, some bytes)

abbrev pub memory_store : Store Memory
memory_store = record { load = load; save = save; describe = codes "memory" }

-- The store in memory keeps the contract of a store.
pub memory_store-IsStore : IsStore memory_store
unfolding load save
memory_store-IsStore = record {
  load-save = λ bytes m h. refl;
  load-failed = λ bytes m e h. inr refl;
}
