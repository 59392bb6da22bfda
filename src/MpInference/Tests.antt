-- ===== src/MpInference/Tests.antt =====
-- A run of the entry in src/mp_inference.rs, with two processors.
use promptboot.Prelude.{◌≡◌, ◌<◌, ℕ, ◌*◌, ◌≤◌, ◌⊎◌, refl, [], ◌∷◌, arith}
use promptboot.MpInference.{
  MpCall, State, Step, takes_turn, Run, begins, goes_on, dispatched, prepared, turn, claim, arrive,
  spin, outside, claimed, published, loaded, spinning, resetting, raising, through,
}
use promptboot.MpInference.Counts.{sum, is_through, is_arrived}
use promptboot.MpInference.Completion.{Entered, Run-Entered, through-arrived}

abbrev shared : ℕ → ℕ → ℕ → MpCall
shared n a g = record { workers = 2; next_slot = n; rejection = 0; arrivals = a; generation = g }

abbrev last_state : State
last_state = record { call = shared 2 0 1; processors = through 0 ∷ through 1 ∷ [] }

-- The second processor comes last and opens the barrier.
two_enter : Run 11 (dispatched 2) last_state
unfolding dispatched prepared turn claim arrive spin
two_enter =
    goes_on
      (goes_on
        (goes_on
          (goes_on
            (goes_on
              (goes_on
                (goes_on
                  (goes_on
                    (goes_on
                      (goes_on
                        (goes_on begins (
                          takes_turn [] (outside ∷ []) (shared 0 0 0) outside
                            (shared 1 0 0, claimed 0) refl))
                        (takes_turn [] (outside ∷ []) (shared 1 0 0) (claimed 0)
                          (shared 1 0 0, published 0) refl))
                      (takes_turn (published 0 ∷ []) [] (shared 1 0 0) outside
                        (shared 2 0 0, claimed 1) refl))
                    (takes_turn [] (claimed 1 ∷ []) (shared 2 0 0) (published 0)
                      (shared 2 0 0, loaded 0 0) refl))
                  (takes_turn (loaded 0 0 ∷ []) [] (shared 2 0 0) (claimed 1)
                    (shared 2 0 0, published 1) refl))
                (takes_turn (loaded 0 0 ∷ []) [] (shared 2 0 0) (published 1)
                  (shared 2 0 0, loaded 1 0) refl))
              (takes_turn [] (loaded 1 0 ∷ []) (shared 2 0 0) (loaded 0 0)
                (shared 2 1 0, spinning 0 0) refl))
            (takes_turn (spinning 0 0 ∷ []) [] (shared 2 1 0) (loaded 1 0)
              (shared 2 2 0, resetting 1) refl))
          (takes_turn (spinning 0 0 ∷ []) [] (shared 2 2 0) (resetting 1) (shared 2 0 0, raising 1)
            refl))
        (takes_turn (spinning 0 0 ∷ []) [] (shared 2 0 0) (raising 1) (shared 2 0 1, through 1)
          refl))
      (takes_turn [] (through 1 ∷ []) (shared 2 0 1) (spinning 0 0) (shared 2 0 1, through 0) refl)

Run-Entered_example : (11 ≤ 6 * 2) × (((t : State) × Step last_state t) ⊎ Entered 2 last_state)
Run-Entered_example = Run-Entered 2 11 last_state (omega arith) two_enter

one_through : 0 < sum is_through last_state.processors
one_through = omega arith

through-arrived_example : sum is_arrived last_state.processors ≡ 2
through-arrived_example = through-arrived 2 11 last_state (omega arith) two_enter one_through
