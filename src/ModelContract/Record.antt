-- ===== src/ModelContract/Record.antt =====
-- `ModelRecord` of src/model_contract.rs: a line of at most 511 bytes that latches its overflow.
use promptboot.Prelude.{
  ℕ, zero, suc, ◌+◌, ◌-◌, ◌/◌, ◌%◌, Bool, true, false, ◌||◌, List, [], ◌∷◌, ◌++◌, ltb, ◌==◌,
  if◌then◌else◌, length, take, replicate, Result, ok, err, none,
}
use promptboot.Prelude.Slices.{splice}
use promptboot.ModelContract.{ErrorTuple, error_tuple, codes}

abbrev pub record_capacity : ℕ
record_capacity = 511

abbrev pub model_record_fatal : List ℕ
model_record_fatal =
    codes
      "PROMPTBOOT_EVENT v=1 event=FATAL code=MODEL_RECORD phase=record efi_status=none model_error=none inference_error=none region=none cleanup_attempted=00000000 cleanup_ok=00000000"
    ++ (13 ∷ 10 ∷ [])

pub record ModelRecord : Type 0 where
  pub data_bytes : List ℕ
  pub used : ℕ
  pub overflow : Bool

unfoldable pub new : ModelRecord
new = record { data_bytes = replicate record_capacity 0; used = 0; overflow = false }

unfoldable pub push : ModelRecord → List ℕ → ModelRecord
push r value =
    if r.overflow || ltb (length r.data_bytes - r.used) (length value)
    then record r { overflow = true }
    else record r {
      data_bytes = splice r.used (r.used + length value) value r.data_bytes;
      used = r.used + length value;
    }

-- The first loop of `push_decimal`: the digits, the last one first. Twenty rounds are enough for a
-- 64-bit word.
unfoldable pub digits : ℕ → ℕ → List ℕ
digits zero value = []
digits (suc fuel) value =
    let rest = digits fuel (value / 10) in if value == 0 then [] else (48 + value % 10) ∷ rest

-- The second loop: each digit is pushed by itself, from the end of the array.
unfoldable pub push_back : ModelRecord → List ℕ → ModelRecord
push_back r [] = r
push_back r (d ∷ ds) = push (push_back r ds) (d ∷ [])

unfoldable pub push_decimal : ModelRecord → ℕ → ModelRecord
push_decimal r value = if value == 0 then push r (48 ∷ []) else push_back r (digits 20 value)

unfoldable pub as_bytes : ModelRecord → List ℕ
as_bytes r = if r.overflow then model_record_fatal else take r.used r.data_bytes

unfoldable pub record_emission : ModelRecord → Result ErrorTuple (List ℕ)
unfolding as_bytes
record_emission r =
    if r.overflow
    then err (error_tuple "MODEL_RECORD" "record" none none none none 0 0)
    else ok (as_bytes r)
