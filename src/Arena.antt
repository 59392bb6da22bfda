-- ===== src/Arena.antt =====
-- crates/promptboot-core/src/arena.rs: a bump allocator over a borrowed byte slice. An operation
-- that takes `&mut self` returns the new arena; where it fails it has written nothing, so the
-- caller keeps the arena that it had. The slice is its list of bytes, with its address beside it
-- where the code reads that.
pub mod Align
pub mod Allocate
pub mod Regions
pub mod Sessions
mod Tests
use promptboot.Prelude.{
  ℕ, ◌+◌, ◌-◌, Bool, true, false, not, ◌&&◌, ◌||◌, List, ◌++◌, bit_and, ltb, ◌==◌, if◌then◌else◌,
  length, take, drop, replicate, Result, ok, err, ◌>>=◌, ◌>>◌, fail_if, ok_or, checked_add, u64_max,
}
use promptboot.Prelude.Slices.{slice, splice}
use promptboot.Status.{PrimitiveStatus}

pub record Region : Type 0 where
  pub offset : ℕ
  pub length : ℕ

pub record ArenaUsage : Type 0 where
  pub capacity : ℕ
  pub requested : ℕ
  pub committed : ℕ
  pub current : ℕ
  pub high_water : ℕ

pub record ArenaError : Type 0 where
  pub status : PrimitiveStatus
  pub needed_bytes : ℕ
  pub available_bytes : ℕ

abbrev pub arena_error : PrimitiveStatus → ℕ → ℕ → ArenaError
arena_error s n a = record { status = s; needed_bytes = n; available_bytes = a }

pub record Arena : Type 0 where
  pub storage : List ℕ
  pub requested : ℕ
  pub committed : ℕ
  pub current : ℕ
  pub high_water : ℕ
  pub sealed : Bool

-- `storage.len() as u64`
abbrev pub capacity : Arena → ℕ
capacity a = length a.storage

-- `Arena::new`; the first argument is `storage.as_mut_ptr() as usize`.
unfoldable pub new : ℕ → List ℕ → Result ArenaError Arena
new address storage = do
  fail_if (length storage == 0) (arena_error PrimitiveStatus.arena_capacity 1 0)
  fail_if (not (bit_and address 63 == 0)) (arena_error PrimitiveStatus.alignment 64 0)
  ok (record {
    storage = storage;
    requested = 0;
    committed = 0;
    current = 0;
    high_water = 0;
    sealed = false;
  })

-- `u32::is_power_of_two`
abbrev pub is_power_of_two : ℕ → Bool
is_power_of_two n = ltb 0 n && (bit_and n (n - 1) == 0)

-- The second test of `allocate` on its alignment.
unfoldable pub bad_alignment : ℕ → Bool
bad_alignment alignment = alignment == 0 || not (is_power_of_two alignment) || ltb 64 alignment

-- The four checked additions of `allocate`.
unfoldable pub sum_or_overflow : ℕ → ℕ → ℕ → ℕ → Result ArenaError ℕ
sum_or_overflow available bytes x y =
    ok_or (checked_add x y) (arena_error PrimitiveStatus.arithmetic_overflow bytes available)

-- `& !mask` on a `u64`
unfoldable pub clear_bits : ℕ → ℕ → ℕ
clear_bits x mask = bit_and x (u64_max - mask)

unfoldable pub allocate : Arena → ℕ → ℕ → Result ArenaError (Region × Arena)
allocate a bytes alignment = do
  fail_if a.sealed (arena_error PrimitiveStatus.arena_sealed bytes (capacity a))
  fail_if (bytes == 0) (arena_error PrimitiveStatus.length 1 0)
  fail_if (bad_alignment alignment) (arena_error PrimitiveStatus.alignment alignment 64)
  let mask = alignment - 1
  padded ← sum_or_overflow (capacity a) bytes a.committed mask
  let offset = clear_bits padded mask
  end ← sum_or_overflow (capacity a) bytes offset bytes
  requested ← sum_or_overflow (capacity a) bytes a.requested bytes
  current ← sum_or_overflow (capacity a) bytes a.current bytes
  fail_if (ltb (capacity a) end) (arena_error PrimitiveStatus.arena_capacity end (capacity a))
  ok (
    record { offset = offset; length = bytes },
    record a {
      requested = requested;
      committed = end;
      current = current;
      high_water = if ltb a.high_water current then current else a.high_water;
    },
  )

unfoldable pub seal : Arena → Result ArenaError Arena
seal a =
    if a.sealed
    then err (arena_error PrimitiveStatus.state 0 0)
    else ok (record a { sealed = true })

-- `usize::try_from` cannot fail on the 64-bit targets.
unfoldable pub reset : Arena → Result ArenaError Arena
reset a =
    if a.sealed
    then ok (record a {
      storage = replicate a.committed 0 ++ drop a.committed a.storage;
      requested = 0;
      committed = 0;
      current = 0;
      sealed = false;
    })
    else err (arena_error PrimitiveStatus.state 0 0)

unfoldable pub usage : Arena → ArenaUsage
usage a = record {
  capacity = capacity a;
  requested = a.requested;
  committed = a.committed;
  current = a.current;
  high_water = a.high_water;
}

-- The start and the end of a region.
unfoldable pub region_bounds : Arena → Region → Result ArenaError (ℕ × ℕ)
region_bounds a r = do
  fail_if (r.length == 0) (arena_error PrimitiveStatus.length 1 0)
  end ←
      ok_or (checked_add r.offset r.length)
        (arena_error PrimitiveStatus.arithmetic_overflow r.length a.committed)
  fail_if (ltb a.committed end) (arena_error PrimitiveStatus.length end a.committed)
  ok (r.offset, end)

-- `region`: the bytes of the slice that it returns.
unfoldable pub region : Arena → Region → Result ArenaError (List ℕ)
region a r = do
  fail_if (not a.sealed) (arena_error PrimitiveStatus.state 0 0)
  bounds ← region_bounds a r
  ok (slice bounds.0 (bounds.1 - bounds.0) a.storage)

-- `region_mut`, with the bytes that its client leaves in the slice, whose length is that of the
-- region.
unfoldable pub region_mut : Arena → Region → List ℕ → Result ArenaError Arena
region_mut a r bytes = do
  fail_if (not a.sealed) (arena_error PrimitiveStatus.state 0 0)
  bounds ← region_bounds a r
  ok (record a { storage = splice bounds.0 bounds.1 bytes a.storage })
