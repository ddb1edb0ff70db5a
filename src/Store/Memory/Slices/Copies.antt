-- ===== src/Store/Memory/Slices/Copies.antt =====
-- internal/store/memory.go: the acts on slices against the acts on values.
use ticketbutler_proxy.Common.{
  ℕ, ◌<◌, ◌≡◌, ◌≢◌, refl, sym, ap, ◌∙◌, Option, none, some, List, [], ◌∷◌, All, arith,
}
use mathlib.Core.Option
use mathlib.Core.Path.{ap₂}
use ticketbutler_proxy.Errors.{Bytes}
use ticketbutler_proxy.Store.Memory
use ticketbutler_proxy.Store.Memory.{Memory as Stored}
use ticketbutler_proxy.Store.Memory.Slices.{
  get_elem?, Slices, new_slices, Act, build, write, save, load, write_to, save_slice, load_slice,
  act, run, Values, new_values, write_value, save_value, load_value, act_value, run_values,
  values_of,
}
use ticketbutler_proxy.Store.Memory.Slices.Frame.{
  copy-make, put_same, map-put, All?, map?-put, Distinct, All-get_elem?, get_elem?-map,
  map-put_held, All-lt-suc, All?-lt-suc, fresh, fresh?, private_fresh,
}

-- The slice of the store and those of the callers are different ones, in use.
record IsSeparate (s : Slices) : Type 0 where
  data_below : All? (λ p. p < s.free) s.data_at
  held_below : All (λ p. p < s.free) s.held
  distinct : Distinct s.held
  private : All (λ p. All? (λ q. p ≢ q) s.data_at) s.held

abbrev values : Stored → List Bytes → Values
values m h = record { memory = m; held = h }

-- An act on slices is the act on their values, and keeps the slices apart.
abbrev Simulates : Act → Slices → Type 0
Simulates a s = (values_of (act a s) ≡ act_value a (values_of s)) × IsSeparate (act a s)

build-Simulates : (bytes : Bytes) (s : Slices) → IsSeparate s → Simulates (build bytes) s
unfolding act act_value
build-Simulates bytes s h = (
  ap₂ values (map?-put s.heap s.free bytes s.data_at (fresh? s.free s.data_at h.data_below)) (
      ap₂ (λ b bs. b ∷ bs) (put_same s.heap s.free bytes)
        (map-put s.heap s.free bytes s.held (fresh s.free s.held h.held_below))),
  record {
    data_below = All?-lt-suc s.free s.data_at h.data_below;
    held_below = (omega arith, All-lt-suc s.free s.held h.held_below);
    distinct = (fresh s.free s.held h.held_below, h.distinct);
    private = (fresh? s.free s.data_at h.data_below, h.private);
  },
)

write_to-Simulates :
    (k i byte : ℕ) (s : Slices) (o : Option ℕ)
    → get_elem? s.held k ≡ o
    → IsSeparate s
    → (values_of (write_to o i byte s) ≡ write_value (Option.map s.heap o) k i byte (values_of s))
      × IsSeparate (write_to o i byte s)
unfolding write_to write_value
write_to-Simulates k i byte s none e h = (refl, h)
write_to-Simulates k i byte s (some p) e h = (
  ap₂ values
      (map?-put s.heap p _ s.data_at
        (All-get_elem? (λ q. All? (λ r. q ≢ r) s.data_at) s.held k p h.private e))
      (map-put_held s.heap _ s.held k p h.distinct e),
  record {
    data_below = h.data_below;
    held_below = h.held_below;
    distinct = h.distinct;
    private = h.private;
  },
)

save_slice-Simulates :
    (k : ℕ) (s : Slices) (o : Option ℕ)
    → IsSeparate s
    → (values_of (save_slice o s) ≡ save_value (Option.map s.heap o) (values_of s))
      × IsSeparate (save_slice o s)
unfolding save_slice save_value Memory.save
save_slice-Simulates k s none h = (refl, h)
save_slice-Simulates k s (some p) h = (
  ap₂ values (ap some (put_same s.heap s.free _ ∙ copy-make (s.heap p)))
      (map-put s.heap s.free _ s.held (fresh s.free s.held h.held_below)),
  record {
    data_below = omega arith;
    held_below = All-lt-suc s.free s.held h.held_below;
    distinct = h.distinct;
    private = private_fresh s.free s.held h.held_below;
  },
)

load_slice-Simulates :
    (s : Slices) (o : Option ℕ)
    → s.data_at ≡ o
    → IsSeparate s
    → (values_of (load_slice o s) ≡ load_value (Memory.load (Option.map s.heap o)) (values_of s))
      × IsSeparate (load_slice o s)
unfolding load_slice load_value Memory.load
load_slice-Simulates s none e h = (refl, h)
load_slice-Simulates s (some p) e h = (
  ap₂ values (map?-put s.heap s.free _ s.data_at (fresh? s.free s.data_at h.data_below)) (
      ap₂ (λ b bs. b ∷ bs) (put_same s.heap s.free _ ∙ copy-make (s.heap p))
        (map-put s.heap s.free _ s.held (fresh s.free s.held h.held_below))),
  record {
    data_below = All?-lt-suc s.free s.data_at h.data_below;
    held_below = (omega arith, All-lt-suc s.free s.held h.held_below);
    distinct = (fresh s.free s.held h.held_below, h.distinct);
    private = (fresh? s.free s.data_at h.data_below, h.private);
  },
)

act-Simulates : (a : Act) (s : Slices) → IsSeparate s → Simulates a s
unfolding act act_value
act-Simulates (build bytes) s h = build-Simulates bytes s h
act-Simulates (write k i byte) s h =
    let (same, kept) = write_to-Simulates k i byte s (get_elem? s.held k) refl h in
    (
      same ∙ ap (λ o. write_value o k i byte (values_of s)) (sym (get_elem?-map s.heap s.held k)),
      kept,
    )
act-Simulates (save k) s h =
    let (same, kept) = save_slice-Simulates k s (get_elem? s.held k) h in
    (same ∙ ap (λ o. save_value o (values_of s)) (sym (get_elem?-map s.heap s.held k)), kept)
act-Simulates load s h = load_slice-Simulates s s.data_at refl h

run-Simulates :
    (acts : List Act) (s : Slices)
    → IsSeparate s
    → values_of (run acts s) ≡ run_values acts (values_of s)
unfolding run run_values
run-Simulates [] s h = refl
run-Simulates (a ∷ acts) s h =
    let (same, kept) = act-Simulates a s h in
    run-Simulates acts (act a s) kept ∙ ap (run_values acts) same

-- Whatever callers do with the slices that they give to Save and get from Load, writes to them included:
-- the store and every slice hold what they hold where each slice is a value of its own, which only a write
-- to that slice changes, and the store by Save alone.
pub run-run_values :
    (acts : List Act) → values_of (run acts new_slices) ≡ run_values acts new_values
run-run_values acts =
    run-Simulates acts new_slices
      (record { data_below = tt; held_below = tt; distinct = tt; private = tt })
