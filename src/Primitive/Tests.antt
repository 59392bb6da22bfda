-- ===== src/Primitive/Tests.antt =====
-- Runs of the primitive ABI on small requests, for crates/promptboot-core/src/lib.rs.
use promptboot.Prelude.{
  ltb, ◌||◌, ◌+◌, if◌then◌else◌, ℕ, true, false, ok, refl, ◌≡◌, ◌>>=◌, ◌==◌, ◌%◌, arith,
}
use promptboot.Status.{PrimitiveStatus}
use promptboot.Arena.{
  new, allocate, clear_bits, bad_alignment, sum_or_overflow, seal, region_bounds,
}
use promptboot.Primitive.{PrimitiveRequest, fixed_range, declared_range, invalid_empty, overlaps}
use promptboot.Primitive.Divisible.{is_divisible, is_divisible_lem}
use promptboot.Primitive.Outcomes.{Ended, run_primitive-Ended}
use promptboot.Primitive.Memory.{Memory, load, store, copy_bytes}
use promptboot.Primitive.Schema.{schema, softmax_schema, sizes}
use promptboot.Primitive.Run.{
  Outcome, Response, bare, run_primitive, addresses, aliased, both_overlap, header, lengths,
  alignments, staged, publish, finish,
}

-- A softmax over four words.
abbrev softmax_request : PrimitiveRequest
softmax_request = record {
  abi_version = 1;
  operation = 6;
  input = 4096;
  input_bytes = 16;
  aux = 0;
  aux_bytes = 0;
  output = 8192;
  output_capacity_words = 4;
  scratch = 12288;
  scratch_bytes = 64;
  dim0 = 4;
  dim1 = 0;
  dim2 = 0;
  dim3 = 0;
  position = 0;
  flags = 0;
}

-- The input holds its addresses, all else sevens; the kernel stages the input's bytes.
abbrev memory : Memory
memory at = if ltb at 4096 || ltb 4111 at then 7 else at

abbrev kernel : PrimitiveRequest → Memory → Outcome
kernel r memory = record {
  status = PrimitiveStatus.ok;
  index = 0;
  bytes = λ i. memory (r.input + i);
}

abbrev run : ℕ → PrimitiveRequest → Response × Memory
run result r = run_primitive kernel 256 result r memory

schema_accepts : schema softmax_request ≡ ok (sizes 16 0 4 true false)
unfolding schema softmax_schema ◌>>=◌
schema_accepts = refl

run_succeeds : (run 512 softmax_request).0.returned ≡ 0
unfolding run_primitive addresses aliased both_overlap overlaps header lengths alignments staged
    publish finish load store copy_bytes fixed_range declared_range invalid_empty schema
    softmax_schema ◌>>=◌ new allocate clear_bits bad_alignment sum_or_overflow seal region_bounds
run_succeeds = refl

-- The last byte of the output, and the one behind it.
run_copies : ((run 512 softmax_request).1 8207 ≡ 4111) × ((run 512 softmax_request).1 8208 ≡ 7)
unfolding run_primitive addresses aliased both_overlap overlaps header lengths alignments staged
    publish finish load store copy_bytes fixed_range declared_range invalid_empty schema
    softmax_schema ◌>>=◌ new allocate clear_bits bad_alignment sum_or_overflow seal region_bounds
run_copies = (refl, refl)

-- The result is not aligned.
run_unaligned : run 300 softmax_request ≡ (bare PrimitiveStatus.alignment, memory)
unfolding run_primitive addresses fixed_range ◌>>=◌
run_unaligned = refl

run_primitive-Ended_example :
    Ended 256 512 softmax_request (kernel softmax_request memory) memory (run 512 softmax_request)
run_primitive-Ended_example = run_primitive-Ended kernel 256 512 softmax_request memory

is_divisible_lem_example : is_divisible 14 7 ≡ (14 % 7 == 0)
is_divisible_lem_example = is_divisible_lem 14 7 (omega arith) (omega arith) (omega arith)
