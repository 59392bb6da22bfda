-- ===== src/Arena/Tests.antt =====
-- Runs of the arena, and the theorems about it at concrete inputs.
use promptboot.Prelude.{◌>>=◌, ◌↔◌, ℕ, ◌≡◌, refl, List, [], ◌∷◌, true, false, ok, err, arith}
use promptboot.Status.{PrimitiveStatus}
use promptboot.Arena.{
  Arena, Region, new, bad_alignment, clear_bits, sum_or_overflow, allocate, seal, reset,
  region_bounds, region, region_mut, arena_error,
}
use promptboot.Arena.Allocate.{IsValid, Grants, allocate-Grants, allocate_fits, allocate_full}
use promptboot.Arena.Regions.{Holds, region_bounds_iff, region-region_mut_self, with_written}
use promptboot.Arena.Sessions.{
  Reach, here, next, allocates, seals, writes, resets, Keeps, Reach-Keeps, allocate_all, HandsOut,
  allocate_all-HandsOut, Cleared, reset_clears,
}

abbrev bytes_16 : List ℕ
bytes_16 = 1 ∷ 2 ∷ 3 ∷ 4 ∷ 5 ∷ 6 ∷ 7 ∷ 8 ∷ 9 ∷ 10 ∷ 11 ∷ 12 ∷ 13 ∷ 14 ∷ 15 ∷ 16 ∷ []

-- three bytes are committed
abbrev started : Arena
started = record {
  storage = bytes_16;
  requested = 3;
  committed = 3;
  current = 3;
  high_water = 5;
  sealed = false;
}

abbrev filled : Arena
filled = record started { requested = 7; committed = 8; current = 7; high_water = 7 }

abbrev lent : Arena
lent = record filled { sealed = true }

abbrev second : Region
second = record { offset = 4; length = 4 }

started-IsValid : IsValid started
started-IsValid = omega arith

lent-IsValid : IsValid lent
lent-IsValid = omega arith

allocate_runs : allocate started 4 4 ≡ ok (second, filled)
unfolding allocate bad_alignment sum_or_overflow clear_bits ◌>>=◌
allocate_runs = refl

new_runs : new 64 [] ≡ err (arena_error PrimitiveStatus.arena_capacity 1 0)
unfolding new ◌>>=◌
new_runs = refl

allocate-Grants_example : Grants started 4 4 second filled
allocate-Grants_example = allocate-Grants started 4 4 started-IsValid allocate_runs

allocate_fits_example : allocate started 4 4 ≡ ok (second, filled)
unfolding allocate bad_alignment clear_bits ◌>>=◌
allocate_fits_example = allocate_fits started 4 4 started-IsValid refl refl refl (omega arith)

allocate_full_example :
    allocate started 14 4 ≡ err (arena_error PrimitiveStatus.arena_capacity 18 16)
unfolding allocate bad_alignment clear_bits ◌>>=◌
allocate_full_example = allocate_full started 14 4 started-IsValid refl refl refl (omega arith)

region_bounds_iff_example :
    (region_bounds lent second ≡ ok (4, 8))
    ↔ (Holds lent second × (◌≡◌ {A = ℕ} 4 4) × (◌≡◌ {A = ℕ} 8 8))
region_bounds_iff_example = region_bounds_iff lent second 4 8 lent-IsValid

second-Holds : Holds lent second
second-Holds = omega arith

abbrev letters : List ℕ
letters = 97 ∷ 98 ∷ 99 ∷ 100 ∷ []

region-region_mut_self_example :
    let lent' = with_written lent second letters lent-IsValid refl second-Holds refl in
    (region_mut lent second letters ≡ ok lent') × (region lent' second ≡ ok letters)
region-region_mut_self_example =
    region-region_mut_self lent second letters lent-IsValid refl second-Holds refl

-- The arena after four letters were written to the second region.
abbrev lettered : Arena
lettered = record lent {
  storage = 1 ∷ 2 ∷ 3 ∷ 4 ∷ 97 ∷ 98 ∷ 99 ∷ 100 ∷ 9 ∷ 10 ∷ 11 ∷ 12 ∷ 13 ∷ 14 ∷ 15 ∷ 16 ∷ [];
}

-- and after the reset that clears the eight committed bytes.
abbrev emptied : Arena
emptied = record {
  storage = 0 ∷ 0 ∷ 0 ∷ 0 ∷ 0 ∷ 0 ∷ 0 ∷ 0 ∷ 9 ∷ 10 ∷ 11 ∷ 12 ∷ 13 ∷ 14 ∷ 15 ∷ 16 ∷ [];
  requested = 0;
  committed = 0;
  current = 0;
  high_water = 7;
  sealed = false;
}

-- An allocation, a seal, a write and a reset.
whole_session : Reach started emptied
unfolding allocate bad_alignment sum_or_overflow clear_bits seal reset region_mut region_bounds
    ◌>>=◌
whole_session =
    next
      (next (next (next here (allocates 4 4 second refl)) (seals refl))
        (writes {a' = lettered} second letters refl refl))
      (resets refl)

Reach-Keeps_example : Keeps started emptied
Reach-Keeps_example = Reach-Keeps started-IsValid whole_session

abbrev requests : List (ℕ × ℕ)
requests = (4, 4) ∷ (2, 8) ∷ []

requests_run :
    allocate_all started requests
    ≡ ok (
      second ∷ record { offset = 8; length = 2 } ∷ [],
      record filled { requested = 9; committed = 10; current = 9; high_water = 9 },
    )
unfolding allocate_all allocate bad_alignment sum_or_overflow clear_bits ◌>>=◌
requests_run = refl

allocate_all-HandsOut_example : HandsOut started (
  second ∷ record { offset = 8; length = 2 } ∷ [],
  record filled { requested = 9; committed = 10; current = 9; high_water = 9 },
)
allocate_all-HandsOut_example = allocate_all-HandsOut started requests started-IsValid requests_run

reset_clears_example :
    (lent.sealed ≡ true → (a' : Arena) × (reset lent ≡ ok a') × Cleared lent a')
    × (lent.sealed ≡ false → reset lent ≡ err (arena_error PrimitiveStatus.state 0 0))
reset_clears_example = reset_clears lent
