-- ===== src/Status.antt =====
-- The status codes of the primitive ABI, `PrimitiveStatus` of crates/promptboot-core/src/lib.rs.
use promptboot.Prelude.{ℕ}

-- `enum PrimitiveStatus`, in the order of its codes.
pub data PrimitiveStatus : Type 0 where
  ok null alignment length overlap arithmetic_overflow arena_capacity : PrimitiveStatus
  arena_sealed block_encoding dimension index state : PrimitiveStatus
  nonfinite_input nonfinite_output unsupported_operation : PrimitiveStatus

-- `status as u32`.
unfoldable pub code : PrimitiveStatus → ℕ
code PrimitiveStatus.ok = 0
code PrimitiveStatus.null = 1
code PrimitiveStatus.alignment = 2
code PrimitiveStatus.length = 3
code PrimitiveStatus.overlap = 4
code PrimitiveStatus.arithmetic_overflow = 5
code PrimitiveStatus.arena_capacity = 6
code PrimitiveStatus.arena_sealed = 7
code PrimitiveStatus.block_encoding = 8
code PrimitiveStatus.dimension = 9
code PrimitiveStatus.index = 10
code PrimitiveStatus.state = 11
code PrimitiveStatus.nonfinite_input = 12
code PrimitiveStatus.nonfinite_output = 13
code PrimitiveStatus.unsupported_operation = 14
