-- ===== src/Primitive.antt =====
-- The primitive ABI of crates/promptboot-core/src/lib.rs: the types of a request and of its result,
-- and the checked arithmetic and address ranges that `promptboot_run_primitive` stands on. A
-- pointer is its address, and null is 0.
pub mod Schema
pub mod Divisible
pub mod Memory
pub mod Run
pub mod Sizes
pub mod Staging
pub mod Refusals
pub mod Apart
pub mod Outcomes
mod Tests
use promptboot.Prelude.{
  ℕ, ◌+◌, ◌-◌, Bool, true, false, not, ◌&&◌, ◌||◌, Option, none, some, ltb, ◌==◌, if◌then◌else◌,
  Result, ok, err, ◌>>=◌, checked_add, checked_mul, ok_or, u32_max,
}
use promptboot.Status.{PrimitiveStatus, code}
use promptboot.Arena.{ArenaUsage}

abbrev pub supported_version : ℕ
supported_version = 1

-- `CONTEXT_LIMIT` of crates/promptboot-core/src/inference.rs
abbrev pub context_limit : ℕ
context_limit = 32768

-- `enum ArenaKind`, by its codes.
pub data ArenaKind : Type 0 where
  no_arena primitive_scratch : ArenaKind

unfoldable pub kind_code : ArenaKind → ℕ
kind_code no_arena = 0
kind_code primitive_scratch = 1

pub record PrimitiveRequest : Type 0 where
  pub abi_version : ℕ
  pub operation : ℕ
  pub input : ℕ
  pub input_bytes : ℕ
  pub aux : ℕ
  pub aux_bytes : ℕ
  pub output : ℕ
  pub output_capacity_words : ℕ
  pub scratch : ℕ
  pub scratch_bytes : ℕ
  pub dim0 : ℕ
  pub dim1 : ℕ
  pub dim2 : ℕ
  pub dim3 : ℕ
  pub position : ℕ
  pub flags : ℕ

pub record PrimitiveResult : Type 0 where
  pub status : ℕ
  pub output_words : ℕ
  pub error_operation : ℕ
  pub error_arena : ℕ
  pub error_index : ℕ
  pub reserved : ℕ
  pub needed_bytes : ℕ
  pub available_bytes : ℕ
  pub arena_capacity : ℕ
  pub arena_requested : ℕ
  pub arena_committed : ℕ
  pub arena_current : ℕ
  pub arena_high_water : ℕ

-- `PrimitiveResult::failure_safe`
unfoldable pub failure_safe : PrimitiveResult
failure_safe = record {
  status = 11;
  output_words = 0;
  error_operation = 0;
  error_arena = 0;
  error_index = 0;
  reserved = 0;
  needed_bytes = 0;
  available_bytes = 0;
  arena_capacity = 0;
  arena_requested = 0;
  arena_committed = 0;
  arena_current = 0;
  arena_high_water = 0;
}

pub record AddressRange : Type 0 where
  pub start : ℕ
  pub end : ℕ

unfoldable pub overlaps : AddressRange → AddressRange → Bool
overlaps a b = ltb a.start b.end && ltb b.start a.end

-- `checked_mul(left, right)?` and `checked_add(left, right)?`
abbrev pub mul_or : ℕ → ℕ → Result PrimitiveStatus ℕ
mul_or left right = ok_or (checked_mul left right) PrimitiveStatus.arithmetic_overflow

abbrev pub add_or : ℕ → ℕ → Result PrimitiveStatus ℕ
add_or left right = ok_or (checked_add left right) PrimitiveStatus.arithmetic_overflow

abbrev pub f32_bytes : ℕ → Result PrimitiveStatus ℕ
f32_bytes words = mul_or words 4

unfoldable pub fixed_range : ℕ → ℕ → Result PrimitiveStatus AddressRange
fixed_range address bytes = do
  end ← add_or address bytes
  ok (record { start = address; end = end })

-- `usize::try_from` cannot fail on the 64-bit targets.
unfoldable pub declared_range : ℕ → ℕ → Result PrimitiveStatus (Option AddressRange)
unfolding fixed_range
declared_range pointer bytes =
    if pointer == 0 || bytes == 0
    then ok none
    else (fixed_range pointer bytes >>= λ range. ok (some range))

unfoldable pub invalid_empty : ℕ → ℕ → Option PrimitiveStatus
invalid_empty pointer bytes =
    if pointer == 0 && not (bytes == 0)
    then some PrimitiveStatus.null
    else if not (pointer == 0) && bytes == 0
    then some PrimitiveStatus.length
    else none

abbrev pub with_usage : Option ArenaUsage → PrimitiveResult → PrimitiveResult
with_usage none r = r
with_usage (some u) r = record r {
  arena_capacity = u.capacity;
  arena_requested = u.requested;
  arena_committed = u.committed;
  arena_current = u.current;
  arena_high_water = u.high_water;
}

-- What `write_failure` leaves in the result behind `failure_safe`.
unfoldable pub failure :
    PrimitiveStatus → ℕ → ArenaKind → ℕ → ℕ → ℕ → Option ArenaUsage → PrimitiveResult
failure status operation arena index needed available usage =
    with_usage usage (record failure_safe {
      status = code status;
      output_words = 0;
      error_operation = operation;
      error_arena = kind_code arena;
      error_index = index;
      needed_bytes = needed;
      available_bytes = available;
    })
