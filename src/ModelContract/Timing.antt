-- ===== src/ModelContract/Timing.antt =====
-- The frequency that `derive_frequency` of src/model_contract.rs derives from three measurements.
use promptboot.Prelude.{◌>>=◌, ℕ, ◌*◌, ◌<◌, ◌≤◌, ◌≡◌, ◌↔◌, min, max, ok, arith}
use promptboot.ModelContract.{insert, middle, derive_frequency}

-- The median of three numbers, by minima and maxima.
unfoldable pub median : ℕ → ℕ → ℕ → ℕ
median a b c = max (min a b) (min (max a b) c)

middle-median : (a b c : ℕ) → middle a b c ≡ median a b c
unfolding middle insert median
middle-median a b c = ground arith

-- The measurements are accepted exactly if none is zero, the three auxiliary words agree and ten
-- times the median is from 1 to 10 GHz: that is the frequency.
pub derive_frequency_iff :
    (d0 d1 d2 a0 a1 a2 hz : ℕ)
    → (derive_frequency d0 d1 d2 a0 a1 a2 ≡ ok hz) ↔ (
        0 < d0
        × 0 < d1
        × 0 < d2
        × a0 ≡ a1
        × a0 ≡ a2
        × hz ≡ median d0 d1 d2 * 10
        × 1000000000 ≤ hz
        × hz ≤ 10000000000)
unfolding derive_frequency ◌>>=◌
derive_frequency_iff d0 d1 d2 a0 a1 a2 hz = rw (middle-median d0 d1 d2) (ground arith)
