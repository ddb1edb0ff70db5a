-- ===== src/Store/Memory/Slices/Tests.antt =====
-- A run of the store in memory whose callers write to their slices.
use ticketbutler_proxy.Common.{◌≡◌, refl, some, List, [], ◌∷◌}
use ticketbutler_proxy.Store.Memory.{save, load}
use ticketbutler_proxy.Store.Memory.Slices.{new_slices, Act, run, new_values, run_values, values_of}
use ticketbutler_proxy.Store.Memory.Slices.Copies.{run-run_values}

-- A slice is saved and written to; what is then loaded is written to; a last load gets what was saved.
abbrev acts : List Act
acts =
    Act.build (1 ∷ 2 ∷ [])
    ∷ Act.save 0
    ∷ Act.write 0 0 9
    ∷ Act.load
    ∷ Act.write 0 1 9
    ∷ Act.load
    ∷ []

run-run_values_example : values_of (run acts new_slices) ≡ run_values acts new_values
run-run_values_example = run-run_values acts

values_left :
    run_values acts new_values
    ≡ record { memory = some (1 ∷ 2 ∷ []); held = (1 ∷ 2 ∷ []) ∷ (1 ∷ 9 ∷ []) ∷ (9 ∷ 2 ∷ []) ∷ [] }
unfolding run_values save load
values_left = refl
