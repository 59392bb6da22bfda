-- ===== src/ModelContract/Storage.antt =====
-- The failures of src/model_contract.rs on the way to the open model file, and those of the guards
-- and of the allocations.
use promptboot.Prelude.{
  ℕ, Bool, true, false, not, ◌&&◌, ◌||◌, Option, none, some, ltb, leb, ◌==◌, if◌then◌else◌,
}
use promptboot.ModelContract.{
  ErrorTuple, error_tuple, all_cleanup, efi_success, efi_not_found, efi_out_of_resources,
}
use Prim.Native.String.{String}

pub data GuardFailure : Type 0 where
  weights_tail index_tail logits_tail prompt_slack prompt_tail : GuardFailure

-- The five entries of `valid`, in their order.
unfoldable pub first_guard_failure : Bool → Bool → Bool → Bool → Bool → Option GuardFailure
first_guard_failure v0 v1 v2 v3 v4 =
    if not v0
    then some weights_tail
    else if not v1
    then some index_tail
    else if not v2
    then some logits_tail
    else if not v3
    then some prompt_slack
    else if not v4
    then some prompt_tail
    else none

abbrev pub guard_region : GuardFailure → String
guard_region weights_tail = "weights"
guard_region index_tail = "index"
guard_region logits_tail = "logits"
guard_region prompt_slack = "prompt"
guard_region prompt_tail = "prompt"

unfoldable pub guard_failure : GuardFailure → ErrorTuple
guard_failure failure =
    error_tuple "MODEL_GUARD" "guard" none none none (some (guard_region failure)) all_cleanup
      all_cleanup

pub data StorageFailure : Type 0 where
  loaded_status loaded_abi simple_status simple_abi open_volume_status root_null : StorageFailure
  root_abi : (close_callable : Bool) → StorageFailure
  file_open : (missing : Bool) → StorageFailure
  file_null : StorageFailure
  file_abi : (close_callable : Bool) → StorageFailure

-- A storage failure has no engine fields and no region.
abbrev pub storage_error : String → String → ℕ → ℕ → Option ℕ → ErrorTuple
storage_error code phase acquired callable status =
    error_tuple code phase status none none none acquired callable

unfoldable pub storage_failure : StorageFailure → Option ℕ → ErrorTuple
storage_failure loaded_status = storage_error "MODEL_LOADED_IMAGE" "loaded_image" 0 0
storage_failure loaded_abi = storage_error "MODEL_LOADED_IMAGE" "loaded_image" 0x008 0x008
storage_failure simple_status = storage_error "MODEL_SIMPLE_FS" "simple_fs" 0x008 0x008
storage_failure simple_abi = storage_error "MODEL_SIMPLE_FS" "simple_fs" 0x00c 0x00c
storage_failure open_volume_status = storage_error "MODEL_OPEN_VOLUME" "open_volume" 0x00c 0x00c
storage_failure root_null = storage_error "MODEL_OPEN_VOLUME" "open_volume" 0x00c 0x00c
storage_failure (root_abi close_callable) =
    storage_error "MODEL_FILE_ABI" "root_abi" 0x00e (if close_callable then 0x00e else 0x00c)
storage_failure (file_open true) = storage_error "MODEL_MISSING" "open" 0x00e 0x00e
storage_failure (file_open false) = storage_error "MODEL_OPEN" "open" 0x00e 0x00e
storage_failure file_null = storage_error "MODEL_OPEN" "open" 0x00e 0x00e
storage_failure (file_abi close_callable) =
    storage_error "MODEL_FILE_ABI" "file_abi" 0x00f (if close_callable then 0x00f else 0x00e)

unfoldable pub loaded_transition : ℕ → Bool → ℕ → Bool → Option ErrorTuple
loaded_transition status interface revision device =
    if not (status == efi_success)
    then some (storage_failure loaded_status (some status))
    else if not interface || (ltb revision 0x1000 || not device)
    then some (storage_failure loaded_abi none)
    else none

unfoldable pub simple_transition : ℕ → Bool → ℕ → Bool → Option ErrorTuple
simple_transition status interface revision open_volume =
    if not (status == efi_success)
    then some (storage_failure simple_status (some status))
    else if not interface || (ltb revision 0x10000 || not open_volume)
    then some (storage_failure simple_abi none)
    else none

unfoldable pub volume_transition : ℕ → Bool → Option ErrorTuple
volume_transition status root =
    if not (status == efi_success)
    then some (storage_failure open_volume_status (some status))
    else if not root
    then some (storage_failure root_null none)
    else none

unfoldable pub file_abi_transition : Bool → ℕ → Bool → Bool → Bool → Option ErrorTuple
file_abi_transition root revision can_open can_close can_read =
    if leb 0x10000 revision && (can_open && (can_close && can_read))
    then none
    else if root
    then some (storage_failure (root_abi can_close) none)
    else some (storage_failure (file_abi can_close) none)

unfoldable pub file_open_transition : ℕ → Bool → Option ErrorTuple
file_open_transition status interface =
    if not (status == efi_success)
    then some (storage_failure (file_open (status == efi_not_found)) (some status))
    else if not interface
    then some (storage_failure file_null none)
    else none

-- The entry of the tables `prior` and `region`; the code panics beyond the last one.
abbrev pub table_row : ℕ → Option (ℕ × String)
table_row index =
    if index == 0
    then some (0x00f, "weights")
    else if index == 1
    then some (0x20f, "index")
    else if index == 2
    then some (0x30f, "kv")
    else if index == 3
    then some (0x38f, "scratch")
    else if index == 4
    then some (0x3cf, "logits")
    else if index == 5
    then some (0x3ef, "prompt")
    else none

abbrev pub oom : ℕ → Option (ℕ × String) → Option ErrorTuple
oom status none = none
oom status (some row) =
    some (error_tuple "MODEL_OOM" "allocate" (some status) none none (some row.1) row.0 row.0)

unfoldable pub allocation_status_failure : ℕ → ℕ → Option ErrorTuple
allocation_status_failure index status = oom status (table_row index)

unfoldable pub allocation_failure : ℕ → Option ErrorTuple
unfolding allocation_status_failure
allocation_failure index = allocation_status_failure index efi_out_of_resources
