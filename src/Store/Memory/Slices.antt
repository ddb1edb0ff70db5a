-- ===== src/Store/Memory/Slices.antt =====
-- internal/store/memory.go: Load and Save on slices that are shared with their callers. A slice is an
-- address, the heap holds its bytes, and a caller can write to the slices that it has.
pub mod Frame
pub mod Copies
mod Tests
use ticketbutler_proxy.Common.{
  ℕ, zero, suc, ◌+◌, Option, none, some, List, [], ◌∷◌, map, length, ◌==◌, if◌then◌else◌,
}
use mathlib.Core.Option
use ticketbutler_proxy.Errors.{Bytes, Result, ok, err}
use ticketbutler_proxy.Store.Memory
use ticketbutler_proxy.Store.Memory.{Memory as Stored, new_memory}

-- `make([]byte, n)`, and `copy(dst, src)`.
unfoldable pub make : ℕ → Bytes
make zero = []
make (suc n) = 0 ∷ make n

unfoldable pub copy : Bytes → Bytes → Bytes
copy [] src = []
copy (d ∷ dst) [] = d ∷ dst
copy (d ∷ dst) (c ∷ src) = c ∷ copy dst src

unfoldable pub put : (ℕ → Bytes) → ℕ → Bytes → ℕ → Bytes
put heap address bytes p = if address == p then bytes else heap p

-- `xs[i] = x`; a caller does not write beyond the end.
unfoldable pub set {ℓ} : {A : Type ℓ} → List A → ℕ → A → List A
set [] i x = []
set (y ∷ ys) zero x = x ∷ ys
set (y ∷ ys) (suc i) x = y ∷ set ys i x

unfoldable pub get_elem? {ℓ} : {A : Type ℓ} → List A → ℕ → Option A
get_elem? [] i = none
get_elem? (x ∷ xs) zero = some x
get_elem? (x ∷ xs) (suc i) = get_elem? xs i

-- The heap with its next free address, the field `data` of the store, and the slices that callers have.
pub record Slices : Type 0 where
  pub heap : ℕ → Bytes
  pub free : ℕ
  pub data_at : Option ℕ
  pub held : List ℕ

abbrev pub new_slices : Slices
new_slices = record { heap = λ p. []; free = 0; data_at = none; held = [] }

-- What callers do: make a slice, write a byte of one that they have, and call Save with one or Load. A
-- slice is named by its place among those that they have, the newest first.
pub data Act : Type 0 where
  build : Bytes → Act
  write : ℕ → ℕ → ℕ → Act
  save : ℕ → Act
  load : Act

unfoldable pub write_to : Option ℕ → ℕ → ℕ → Slices → Slices
unfolding put set
write_to none i byte s = s
write_to (some p) i byte s = record s { heap = put s.heap p (set (s.heap p) i byte) }

-- `Save`, with the slice that it is given.
unfoldable pub save_slice : Option ℕ → Slices → Slices
unfolding put copy make
save_slice none s = s
save_slice (some p) s = record s {
  heap = put s.heap s.free (copy (make (length (s.heap p))) (s.heap p));
  free = s.free + 1;
  data_at = some s.free;
}

-- `Load`: the caller has one more slice, where something is stored.
unfoldable pub load_slice : Option ℕ → Slices → Slices
unfolding put copy make
load_slice none s = s
load_slice (some p) s = record s {
  heap = put s.heap s.free (copy (make (length (s.heap p))) (s.heap p));
  free = s.free + 1;
  held = s.free ∷ s.held;
}

unfoldable pub act : Act → Slices → Slices
unfolding put write_to save_slice load_slice get_elem?
act (build bytes) s = record s {
  heap = put s.heap s.free bytes;
  free = s.free + 1;
  held = s.free ∷ s.held;
}
act (write k i byte) s = write_to (get_elem? s.held k) i byte s
act (save k) s = save_slice (get_elem? s.held k) s
act load s = load_slice s.data_at s

unfoldable pub run : List Act → Slices → Slices
unfolding act
run [] s = s
run (a ∷ acts) s = run acts (act a s)

-- The same acts where every slice is a value of its own.
pub record Values : Type 0 where
  pub memory : Stored
  pub held : List Bytes

abbrev pub new_values : Values
new_values = record { memory = new_memory; held = [] }

unfoldable pub write_value : Option Bytes → ℕ → ℕ → ℕ → Values → Values
unfolding set
write_value none k i byte v = v
write_value (some bytes) k i byte v = record v { held = set v.held k (set bytes i byte) }

-- `Store.Memory.save` and `load`.
unfoldable pub save_value : Option Bytes → Values → Values
save_value none v = v
save_value (some bytes) v = record v { memory = (Memory.save bytes v.memory).1 }

unfoldable pub load_value : Result Bytes → Values → Values
load_value (err e) v = v
load_value (ok bytes) v = record v { held = bytes ∷ v.held }

unfoldable pub act_value : Act → Values → Values
unfolding write_value save_value load_value get_elem?
act_value (build bytes) v = record v { held = bytes ∷ v.held }
act_value (write k i byte) v = write_value (get_elem? v.held k) k i byte v
act_value (save k) v = save_value (get_elem? v.held k) v
act_value load v = load_value (Memory.load v.memory) v

unfoldable pub run_values : List Act → Values → Values
unfolding act_value
run_values [] v = v
run_values (a ∷ acts) v = run_values acts (act_value a v)

-- The values that stand at the addresses.
abbrev pub values_of : Slices → Values
values_of s = record { memory = Option.map s.heap s.data_at; held = map s.heap s.held }
