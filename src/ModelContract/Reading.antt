-- ===== src/ModelContract/Reading.antt =====
-- The file reads of src/model_contract.rs: what one completed read means, and the progress of the
-- whole transfer.
use promptboot.Prelude.{
  ℕ, Bool, not, ◌||◌, Option, none, some, ltb, ◌==◌, if◌then◌else◌, Result, ok, err, ◌>>=◌, ok_or,
  checked_add,
}
use promptboot.ModelContract.{ErrorTuple, error_tuple, efi_success, all_cleanup}

pub data ReadDecision : Type 0 where
  advance : ℕ → ReadDecision
  complete truncated oversized read : ReadDecision

unfoldable pub read_decision : ℕ → ℕ → ℕ → Bool → ReadDecision
read_decision requested returned status eof =
    if not (status == efi_success) || ltb requested returned
    then read
    else if eof
    then (if returned == 0 then complete else oversized)
    else if returned == 0
    then truncated
    else advance returned

unfoldable pub checked_read_offset : ℕ → ℕ → ℕ → Result (Unit {0}) ℕ
checked_read_offset offset returned total = do
  next ← ok_or (checked_add offset returned) tt
  if ltb total next then err tt else ok next

abbrev pub read_error : Option ℕ → ReadDecision → Option ErrorTuple
read_error efi truncated =
    some (error_tuple "MODEL_TRUNCATED" "read" efi none none none all_cleanup all_cleanup)
read_error efi oversized =
    some (error_tuple "MODEL_OVERSIZED" "read" efi none none none all_cleanup all_cleanup)
read_error efi read =
    some (error_tuple "MODEL_READ" "read" efi none none none all_cleanup all_cleanup)
read_error efi complete = none
read_error efi (advance count) = none

unfoldable pub read_failure : ReadDecision → ℕ → Option ErrorTuple
read_failure decision status =
    read_error (if status == efi_success then none else some status) decision

pub record ReadProgress : Type 0 where
  pub offset : ℕ
  pub total : ℕ

abbrev pub start : ℕ → ReadProgress
start total = record { offset = 0; total = total }

-- The part of `apply` behind its decision.
unfoldable pub settle_read : ReadProgress → ReadDecision → ReadProgress × ReadDecision
settle_read p (advance count) = elim (checked_read_offset p.offset count p.total) [
  | ok next ↦ (record p { offset = next }, advance count)
  | err e ↦ (p, read)
]
settle_read p complete = (p, complete)
settle_read p truncated = (p, truncated)
settle_read p oversized = (p, oversized)
settle_read p read = (p, read)

unfoldable pub apply : ReadProgress → ℕ → ℕ → ℕ → Bool → ReadProgress × ReadDecision
apply p requested returned status eof = settle_read p (read_decision requested returned status eof)
