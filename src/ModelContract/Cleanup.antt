-- ===== src/ModelContract/Cleanup.antt =====
-- The cleanup masks of src/model_contract.rs: which resources were acquired, which of them could
-- be released, and in what order.
use promptboot.Prelude.{
  ℕ, zero, suc, ◌+◌, ◌-◌, ◌^◌, Bool, not, Option, none, some, bit_and, bit_or, ◌==◌, if◌then◌else◌,
  u32_max,
}
use promptboot.ModelContract.{ErrorTuple, error_tuple, all_cleanup, efi_device_error}
use Prim.Native.String.{String}

abbrev pub file_bit : ℕ
file_bit = 1

abbrev pub root_bit : ℕ
root_bit = 2

abbrev pub simple_fs_bit : ℕ
simple_fs_bit = 4

abbrev pub loaded_image_bit : ℕ
loaded_image_bit = 8

-- For the indices up to 9, all that are asked for; above, `9 - index` overflows.
abbrev pub region_cleanup_bit : ℕ → ℕ
region_cleanup_bit index = 2 ^ (9 - index)

-- `[bool; 6]`
pub record Regions : Type 0 where
  pub weights : Bool
  pub index : Bool
  pub kv : Bool
  pub scratch : Bool
  pub logits : Bool
  pub prompt : Bool

-- `if held { mask |= bit; }`
abbrev pub with_bit : Bool → ℕ → ℕ → ℕ
with_bit held bit mask = if held then bit_or mask bit else mask

-- The loop on the six regions is written out, from the first to the last.
unfoldable pub acquired_mask : Bool → Bool → Bool → Bool → Regions → ℕ
acquired_mask file root simple_fs loaded_image r =
    let mask0 = with_bit file file_bit 0 in
    let mask1 = with_bit root root_bit mask0 in
    let mask2 = with_bit simple_fs simple_fs_bit mask1 in
    let mask3 = with_bit loaded_image loaded_image_bit mask2 in
    let mask4 = with_bit r.weights (region_cleanup_bit 0) mask3 in
    let mask5 = with_bit r.index (region_cleanup_bit 1) mask4 in
    let mask6 = with_bit r.kv (region_cleanup_bit 2) mask5 in
    let mask7 = with_bit r.scratch (region_cleanup_bit 3) mask6 in
    let mask8 = with_bit r.logits (region_cleanup_bit 4) mask7 in
    with_bit r.prompt (region_cleanup_bit 5) mask8

abbrev pub primary_survives_cleanup {ℓ} : {T : Type ℓ} → Option T → Option T → Option T
primary_survives_cleanup (some value) cleanup = some value
primary_survives_cleanup none cleanup = cleanup

pub record CleanupPlan : Type 0 where
  pub attempted_mask : ℕ
  pub released : ℕ

-- `!failed` on a `u32`
unfoldable pub cleanup_plan : ℕ → ℕ → ℕ → CleanupPlan
cleanup_plan acquired callable failed = record {
  attempted_mask = acquired;
  released = bit_and (bit_and acquired callable) (u32_max - failed);
}

-- `pending & (1 << bit) != 0`
unfoldable pub is_pending : ℕ → ℕ → Bool
is_pending pending bit = not (bit_and pending (2 ^ bit) == 0)

-- The loop of `next_cleanup_bit`, with the rounds that are left.
unfoldable pub search_from : ℕ → ℕ → ℕ → Option ℕ
search_from pending zero bit = none
search_from pending (suc rounds) bit =
    let rest = search_from pending rounds (1 + bit) in
    if is_pending pending bit then some bit else rest

unfoldable pub next_cleanup_bit : ℕ → Option ℕ
next_cleanup_bit pending = search_from pending 10 0

-- The region of a bit, in `cleanup_failure`.
abbrev pub region_of_bit : ℕ → Option String
region_of_bit bit =
    if bit == 4
    then some "prompt"
    else if bit == 5
    then some "logits"
    else if bit == 6
    then some "scratch"
    else if bit == 7
    then some "kv"
    else if bit == 8
    then some "index"
    else if bit == 9
    then some "weights"
    else none

unfoldable pub cleanup_failure : ℕ → Option ErrorTuple → ErrorTuple
cleanup_failure bit primary =
    let released = bit_and all_cleanup (u32_max - 2 ^ bit) in
    elim primary [
      | some value ↦ record value { attempted = all_cleanup; ok_mask = released }
      | none ↦
          error_tuple "MODEL_CLEANUP" "cleanup" (some efi_device_error) none none
            (region_of_bit bit) all_cleanup released
    ]
