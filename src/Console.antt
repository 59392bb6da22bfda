-- ===== src/Console.antt =====
-- The console bindings and statuses of src/console_contract.rs.
mod Tests
use promptboot.Prelude.{
  arith, ℕ, ◌≡◌, Bool, true, false, not, ◌&&◌, ◌||◌, bit_and, ◌==◌, if◌then◌else◌, if-cases, Result,
  ok, err, ◌>>=◌, ◌>>◌, fail_if, List, [], ◌∷◌,
}

-- `EFI_SUCCESS`, `EFI_NOT_READY` and the bits of the key shift state
abbrev pub efi_success : ℕ
efi_success = 0

abbrev pub efi_not_ready : ℕ
efi_not_ready = 0x8000000000000006

abbrev pub shift_state_valid : ℕ
shift_state_valid = 0x80000000

abbrev pub control_pressed : ℕ
control_pressed = 0xc

pub data ConsoleFailure : Type 0 where
  clear_failed input_missing reset_missing read_missing event_missing : ConsoleFailure
  wait_missing reset_failed wait_failed wait_index read_failed : ConsoleFailure

unfoldable pub clear_result : ℕ → Result ConsoleFailure (Unit {0})
clear_result status = if status == efi_success then ok tt else err clear_failed

unfoldable pub validate_bindings : ℕ → ℕ → ℕ → ℕ → ℕ → Result ConsoleFailure (Unit {0})
validate_bindings con_in reset read wait_for_key wait_for_event = do
  fail_if (con_in == 0) input_missing
  fail_if (reset == 0) reset_missing
  fail_if (read == 0) read_missing
  fail_if (wait_for_key == 0) event_missing
  fail_if (wait_for_event == 0) wait_missing

unfoldable pub reset_result : ℕ → Result ConsoleFailure (Unit {0})
reset_result status = if status == efi_success then ok tt else err reset_failed

unfoldable pub wait_result : ℕ → ℕ → Result ConsoleFailure (Unit {0})
wait_result status index =
    if not (status == efi_success)
    then err wait_failed
    else if not (index == 0)
    then err wait_index
    else ok tt

unfoldable pub read_result : ℕ → Result ConsoleFailure Bool
read_result status =
    if status == efi_success
    then ok true
    else if status == efi_not_ready
    then ok false
    else err read_failed

unfoldable pub is_generation_interrupt : ℕ → ℕ → Bool
is_generation_interrupt unicode_char key_shift_state =
    if unicode_char == 0x3
    then true
    else let control = not (bit_and key_shift_state control_pressed == 0) in
      not (bit_and key_shift_state shift_state_valid == 0)
      && (control && (unicode_char == 0x43 || unicode_char == 0x63))

-- The failures of the five bindings, in their order, and the first one whose binding is missing.
unfoldable pub first_missing : List (ℕ × ConsoleFailure) → Result ConsoleFailure (Unit {0})
first_missing [] = ok tt
first_missing ((binding, failure) ∷ more) =
    let rest = first_missing more in if binding == 0 then err failure else rest

-- The bindings are accepted if none is null, and otherwise the failure is that of the first null
-- one in the order input, reset, read, key event, wait function.
pub validate_bindings-first_missing :
    (con_in reset read wait_for_key wait_for_event : ℕ)
    → validate_bindings con_in reset read wait_for_key wait_for_event
      ≡ first_missing (
          (con_in, input_missing)
          ∷ (reset, reset_missing)
          ∷ (read, read_missing)
          ∷ (wait_for_key, event_missing)
          ∷ (wait_for_event, wait_missing)
          ∷ [])
unfolding validate_bindings first_missing ◌>>=◌
validate_bindings-first_missing con_in reset read wait_for_key wait_for_event = ground arith
