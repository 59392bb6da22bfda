-- ===== src/ModelContract/Masks.antt =====
-- The masks that the failed allocations of src/model_contract.rs report are those of the resources held.
use promptboot.Prelude.{zero, suc, arith, suc, ◌+◌, ◌-◌, ℕ, ◌<◌, ◌≡◌, refl, some, ltb}
use promptboot.ModelContract.{ErrorTuple}
use promptboot.ModelContract.Cleanup.{Regions, acquired_mask}
use promptboot.ModelContract.Storage.{allocation_status_failure}

-- The first `n` regions.
abbrev pub first_regions : ℕ → Regions
first_regions n = record {
  weights = ltb 0 n;
  index = ltb 1 n;
  kv = ltb 2 n;
  scratch = ltb 3 n;
  logits = ltb 4 n;
  prompt = ltb 5 n;
}

abbrev pub held_mask : ℕ → ℕ
held_mask n = acquired_mask (ltb 3 n) (ltb 2 n) (ltb 1 n) (ltb 0 n) (first_regions (n - 4))

-- A failed allocation of one of the six regions reports, as attempted and as released, the mask of
-- the four file resources and of the regions before it.
pub allocation_status_failure-Plans :
    (index status : ℕ)
    → index < 6
    → (e : ErrorTuple) × (allocation_status_failure index status ≡ some e)
      × (e.attempted ≡ held_mask (4 + index))
      × (e.ok_mask ≡ held_mask (4 + index))
unfolding allocation_status_failure acquired_mask
allocation_status_failure-Plans zero status h = (_, refl, refl, refl)
allocation_status_failure-Plans (suc zero) status h = (_, refl, refl, refl)
allocation_status_failure-Plans (suc (suc zero)) status h = (_, refl, refl, refl)
allocation_status_failure-Plans (suc (suc (suc zero))) status h = (_, refl, refl, refl)
allocation_status_failure-Plans (suc (suc (suc (suc zero)))) status h = (_, refl, refl, refl)
allocation_status_failure-Plans (suc (suc (suc (suc (suc zero))))) status h = (_, refl, refl, refl)
allocation_status_failure-Plans (suc (suc (suc (suc (suc (suc n)))))) status h =
    absurd (omega arith)
