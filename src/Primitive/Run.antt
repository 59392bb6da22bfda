-- ===== src/Primitive/Run.antt =====
-- `promptboot_run_primitive` of crates/promptboot-core/src/lib.rs. The floating-point kernel,
-- `execute` of crates/promptboot-core/src/fp32_sse2.rs, is a parameter: its status, its index, and
-- the bytes that it stages.
use promptboot.Prelude.{
  ◌+◌, ◌^◌, ◌%◌, leb, ℕ, ◌*◌, Bool, false, not, ◌&&◌, ◌||◌, List, Option, none, some, bit_and, ltb,
  ◌==◌, Result, ok, err, ◌>>=◌, ◌>>◌, fail_if, ok_or, checked_mul, u32_max,
}
use promptboot.Status.{PrimitiveStatus, code}
use promptboot.Arena
use promptboot.Arena.{Arena, ArenaUsage, ArenaError, Region}
use promptboot.Primitive.{
  PrimitiveRequest, PrimitiveResult, ArenaKind, no_arena, primitive_scratch, AddressRange, overlaps,
  fixed_range, declared_range, invalid_empty, failure, failure_safe, with_usage, supported_version,
  context_limit,
}
use promptboot.Primitive.Memory.{Memory, load, store, copy_bytes}
use promptboot.Primitive.Schema.{Schema, schema}

-- What a call leaves besides the memory: its return code, and the result if it was written.
pub record Response : Type 0 where
  pub returned : ℕ
  pub result : Option PrimitiveResult

-- A return before anything is written.
abbrev pub bare : PrimitiveStatus → Response
bare status = record { returned = code status; result = none }

-- `return write_failure(...)`
abbrev pub failed :
    PrimitiveRequest → PrimitiveStatus → ArenaKind → ℕ → ℕ → ℕ → Option ArenaUsage → Response
failed r status arena index needed available usage = record {
  returned = code status;
  result = some (failure status r.operation arena index needed available usage);
}

abbrev pub plain_failure : PrimitiveRequest → PrimitiveStatus → Response
plain_failure r status = failed r status no_arena 0 0 0 none

abbrev pub or_bare {ℓ} : {A : Type ℓ} → Result PrimitiveStatus A → Result Response A
or_bare (ok a) = ok a
or_bare (err status) = err (bare status)

-- `size_of` of the result and of the request
abbrev pub result_size : ℕ
result_size = 80

abbrev pub request_size : ℕ
request_size = 96

-- The declared ranges of a request, absent where nothing is declared.
pub record Ranges : Type 0 where
  pub result_range : AddressRange
  pub request_range : AddressRange
  pub input_range : Option AddressRange
  pub aux_range : Option AddressRange
  pub output_range : Option AddressRange
  pub scratch_range : Option AddressRange

-- `matches!((left, right), (Some(a), Some(b)) if a.overlaps(b))`
unfoldable pub both_overlap : Option AddressRange → Option AddressRange → Bool
both_overlap none right = false
both_overlap (some a) none = false
both_overlap (some a) (some b) = overlaps a b

-- From the null checks to the check of the result against every declared range: nothing has been
-- written so far.
unfoldable pub addresses : ℕ → ℕ → PrimitiveRequest → Result Response Ranges
addresses request result local = do
  fail_if (result == 0) (bare PrimitiveStatus.null)
  fail_if (not (bit_and result 7 == 0)) (bare PrimitiveStatus.alignment)
  result_range ← or_bare (fixed_range result result_size)
  fail_if (request == 0) (bare PrimitiveStatus.null)
  fail_if (not (bit_and request 7 == 0)) (bare PrimitiveStatus.alignment)
  request_range ← or_bare (fixed_range request request_size)
  fail_if (overlaps request_range result_range) (bare PrimitiveStatus.overlap)
  output_bytes ←
      ok_or (checked_mul local.output_capacity_words 4) (bare PrimitiveStatus.arithmetic_overflow)
  input ← or_bare (declared_range local.input local.input_bytes)
  aux ← or_bare (declared_range local.aux local.aux_bytes)
  output ← or_bare (declared_range local.output output_bytes)
  scratch ← or_bare (declared_range local.scratch local.scratch_bytes)
  fail_if (both_overlap (some result_range) input) (bare PrimitiveStatus.overlap)
  fail_if (both_overlap (some result_range) aux) (bare PrimitiveStatus.overlap)
  fail_if (both_overlap (some result_range) output) (bare PrimitiveStatus.overlap)
  fail_if (both_overlap (some result_range) scratch) (bare PrimitiveStatus.overlap)
  ok (record {
    result_range = result_range;
    request_range = request_range;
    input_range = input;
    aux_range = aux;
    output_range = output;
    scratch_range = scratch;
  })

-- The table `forbidden`.
unfoldable pub aliased : Ranges → Bool
unfolding both_overlap
aliased s =
    both_overlap s.output_range s.scratch_range
    || (both_overlap s.output_range (some s.request_range)
        || (both_overlap s.output_range s.input_range
            || (both_overlap s.output_range s.aux_range
                || (both_overlap s.scratch_range (some s.request_range)
                    || (both_overlap s.scratch_range s.input_range
                        || both_overlap s.scratch_range s.aux_range)))))

-- An error of `schema`.
abbrev pub or_failed {ℓ} :
    {A : Type ℓ} → PrimitiveRequest → Result PrimitiveStatus A → Result Response A
or_failed r (ok s) = ok s
or_failed r (err status) = err (plain_failure r status)

-- The version, the position and the schema; the last component is the number of output bytes.
unfoldable pub header : PrimitiveRequest → Result Response (Schema × ℕ)
header r = do
  fail_if (not (r.abi_version == supported_version) || not (r.flags == 0))
      (failed r PrimitiveStatus.state no_arena 0 supported_version r.abi_version none)
  fail_if (r.operation == 5 && leb context_limit r.position)
      (failed r PrimitiveStatus.index no_arena r.position context_limit r.position none)
  s ← or_failed r (schema r)
  fail_if (ltb u32_max s.output_words)
      (failed r PrimitiveStatus.arithmetic_overflow no_arena 0 s.output_words u32_max none)
  output_bytes ←
      ok_or (checked_mul s.output_words 4)
        (failed r PrimitiveStatus.arithmetic_overflow no_arena 0 s.output_words u32_max none)
  ok (s, output_bytes)

abbrev pub fail_empty : PrimitiveRequest → Option PrimitiveStatus → Result Response (Unit {0})
fail_empty r none = ok tt
fail_empty r (some status) = err (plain_failure r status)

-- Every length against the schema.
unfoldable pub lengths : PrimitiveRequest → Schema → ℕ → Result Response (Unit {0})
lengths r s output_bytes = do
  fail_empty r (invalid_empty r.input r.input_bytes)
  fail_empty r (invalid_empty r.aux r.aux_bytes)
  fail_empty r (invalid_empty r.output (r.output_capacity_words * 4))
  fail_empty r (invalid_empty r.scratch r.scratch_bytes)
  fail_if (not (r.input_bytes == s.input_bytes))
      (failed r PrimitiveStatus.length no_arena 0 s.input_bytes r.input_bytes none)
  fail_if (not (r.aux_bytes == s.aux_bytes))
      (failed r PrimitiveStatus.length no_arena 0 s.aux_bytes r.aux_bytes none)
  fail_if (r.output == 0) (failed r PrimitiveStatus.length no_arena 0 s.output_words 0 none)
  fail_if (ltb r.output_capacity_words s.output_words)
      (failed r PrimitiveStatus.length no_arena 0 s.output_words r.output_capacity_words none)
  fail_if (r.scratch == 0)
      (failed r PrimitiveStatus.arena_capacity primitive_scratch 0 output_bytes 0 none)
  fail_if (ltb r.scratch_bytes output_bytes) (
      failed r PrimitiveStatus.arena_capacity primitive_scratch 0 output_bytes r.scratch_bytes none)

-- Every pointer against its alignment.
unfoldable pub alignments : PrimitiveRequest → Schema → Result Response (Unit {0})
alignments r s = do
  fail_if (s.input_f32 && not (bit_and r.input 3 == 0))
      (failed r PrimitiveStatus.alignment no_arena 0 4 0 none)
  fail_if (s.aux_f32 && not (bit_and r.aux 3 == 0))
      (failed r PrimitiveStatus.alignment no_arena 0 4 0 none)
  fail_if (not (bit_and r.output 3 == 0)) (failed r PrimitiveStatus.alignment no_arena 0 4 0 none)
  fail_if (not (bit_and r.scratch 63 == 0))
      (failed r PrimitiveStatus.alignment primitive_scratch 0 64 0 none)

-- An arena's error, with the usage where the arena exists.
abbrev pub or_arena {ℓ} :
    {A : Type ℓ} → PrimitiveRequest → Option ArenaUsage → Result ArenaError A → Result Response A
or_arena r usage (ok a) = ok a
or_arena r usage (err e) =
    err (failed r e.status primitive_scratch 0 e.needed_bytes e.available_bytes usage)

-- The sealed arena with its one region, after `region_mut`, over the bytes of the scratch buffer.
unfoldable pub staged : PrimitiveRequest → List ℕ → ℕ → Result Response (Region × Arena)
staged r scratch output_bytes = do
  fresh ← or_arena r none (Arena.new r.scratch scratch)
  given ← or_arena r (some (Arena.usage fresh)) (Arena.allocate fresh output_bytes 64)
  sealed ← or_arena r (some (Arena.usage given.1)) (Arena.seal given.1)
  or_arena r (some (Arena.usage sealed))
      (fail_if (not sealed.sealed) (Arena.arena_error PrimitiveStatus.state 0 0))
  bounds ← or_arena r (some (Arena.usage sealed)) (Arena.region_bounds sealed given.0)
  ok (given.0, sealed)

-- `ExecOutcome`, and the bytes that the kernel leaves in the staging region, in which it writes.
pub record Outcome : Type 0 where
  pub status : PrimitiveStatus
  pub index : ℕ
  pub bytes : ℕ → ℕ

-- The end, by the kernel's status: its failure, or the copy of the staged bytes to the output, and the
-- result.
unfoldable pub finish :
    PrimitiveRequest
    → Schema × ℕ
    → Region × Arena
    → ℕ
    → Memory
    → PrimitiveStatus
    → Response × Memory
finish r (s, output_bytes) (region, arena) index memory PrimitiveStatus.ok = (
  record {
    returned = 0;
    result = some (
        with_usage (some (Arena.usage arena))
          (record failure_safe { output_words = s.output_words % 2 ^ 32; status = 0 }));
  },
  copy_bytes (r.scratch + region.offset) r.output output_bytes memory,
)
finish r sized (region, arena) index memory status =
    (failed r status primitive_scratch index 0 0 (some (Arena.usage arena)), memory)

-- The kernel's writes to the staging region, and what follows.
unfoldable pub publish :
    PrimitiveRequest → Schema × ℕ → Region × Arena → Memory → Outcome → Response × Memory
publish r sized stage memory outcome =
    finish r sized stage outcome.index
      (store (r.scratch + stage.0.offset) sized.1 outcome.bytes memory) outcome.status

abbrev pub settle : Memory → Result Response (Response × Memory) → Response × Memory
settle memory (ok r) = r
settle memory (err r) = (r, memory)

-- `request` and `result` are the two pointers, `local` is what the first one points to, and `memory`
-- holds the bytes behind the pointers of the request. The result stands apart from it.
unfoldable pub run_primitive :
    (PrimitiveRequest → Memory → Outcome) → ℕ → ℕ → PrimitiveRequest → Memory → Response × Memory
run_primitive execute request result local memory = settle memory (do
  ranges ← addresses request result local
  fail_if (aliased ranges) (plain_failure local PrimitiveStatus.overlap)
  sized ← header local
  lengths local sized.0 sized.1
  alignments local sized.0
  stage ← staged local (load memory local.scratch local.scratch_bytes) sized.1
  ok (publish local sized stage memory (execute local memory)))
